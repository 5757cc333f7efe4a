-- ===== src/Web/Results/Entry.antt =====
-- wolnut/web.py: what `_record_agent_result` makes of a client's shutdown entry.
use wolnut_webui.Common.{
  ℕ, String, Bool, true, false, Option, none, some, List, [], ◌∷◌, ◌≡◌, ◌≢◌, refl, ap, ◌∙◌, arith,
  eq_iff, eq_refl, str_in, inl, inr, Bool-cases, str_eq, not, ◌&&◌, if◌then◌else◌,
}
use wolnut_webui.Common.Dict.{Dict, lookup, insert, lookup-insert}
use wolnut_webui.Common.Value.{Value, null, bool, int, neg, real, str, arr, obj}
use mathlib.Core.Path.{subst}
use wolnut_webui.Web.Results.{
  AgentReport, copy_detail, copy_details, fields_written, detail_keys, report_fields, text_or_null,
}

copy_detail-other :
    (key other : String) (v : Option Value) (d : Dict Value)
    → key ≢ other
    → lookup other (copy_detail key v d) ≡ lookup other d
copy_detail-other key other none d ne = refl
copy_detail-other key other (some null) d ne = refl
copy_detail-other key other (some (bool x)) d ne =
    ground (arith, lookup-insert key other (bool x) d, eq_iff key other)
copy_detail-other key other (some (int x)) d ne =
    ground (arith, lookup-insert key other (int x) d, eq_iff key other)
copy_detail-other key other (some (neg x)) d ne =
    ground (arith, lookup-insert key other (neg x) d, eq_iff key other)
copy_detail-other key other (some (real x)) d ne =
    ground (arith, lookup-insert key other (real x) d, eq_iff key other)
copy_detail-other key other (some (str x)) d ne =
    ground (arith, lookup-insert key other (str x) d, eq_iff key other)
copy_detail-other key other (some (arr x)) d ne =
    ground (arith, lookup-insert key other (arr x) d, eq_iff key other)
copy_detail-other key other (some (obj x)) d ne =
    ground (arith, lookup-insert key other (obj x) d, eq_iff key other)

-- Keys that are no details are not written.
copy_details-other :
    (details : Dict Value) (ks : List String) (other : String) (d : Dict Value)
    → str_in other ks ≡ false
    → lookup other (copy_details details ks d) ≡ lookup other d
unfolding copy_details
copy_details-other details [] other d h = refl
copy_details-other details (k ∷ ks) other d h =
    let ne : k ≢ other = λ e. ground (arith, eq_iff other k) in
    copy_details-other details ks other (copy_detail k (lookup k details) d) (ground arith)
    ∙ copy_detail-other k other (lookup k details) d ne

-- A detail of an answer goes over what was there, unless it is missing or null.
abbrev pub detail_or : Option Value → Option Value → Option Value
detail_or none old = old
detail_or (some null) old = old
detail_or (some v) old = some v

lookup-copy_detail :
    (key : String) (v : Option Value) (d : Dict Value)
    → lookup key (copy_detail key v d) ≡ detail_or v (lookup key d)
lookup-copy_detail key none d = refl
lookup-copy_detail key (some null) d = refl
lookup-copy_detail key (some (bool x)) d =
    ground (arith, lookup-insert key key (bool x) d, eq_refl key)
lookup-copy_detail key (some (int x)) d =
    ground (arith, lookup-insert key key (int x) d, eq_refl key)
lookup-copy_detail key (some (neg x)) d =
    ground (arith, lookup-insert key key (neg x) d, eq_refl key)
lookup-copy_detail key (some (real x)) d =
    ground (arith, lookup-insert key key (real x) d, eq_refl key)
lookup-copy_detail key (some (str x)) d =
    ground (arith, lookup-insert key key (str x) d, eq_refl key)
lookup-copy_detail key (some (arr x)) d =
    ground (arith, lookup-insert key key (arr x) d, eq_refl key)
lookup-copy_detail key (some (obj x)) d =
    ground (arith, lookup-insert key key (obj x) d, eq_refl key)

detail_or-twice : (v old : Option Value) → detail_or v (detail_or v old) ≡ detail_or v old
detail_or-twice none old = refl
detail_or-twice (some null) old = refl
detail_or-twice (some (bool x)) old = refl
detail_or-twice (some (int x)) old = refl
detail_or-twice (some (neg x)) old = refl
detail_or-twice (some (real x)) old = refl
detail_or-twice (some (str x)) old = refl
detail_or-twice (some (arr x)) old = refl
detail_or-twice (some (obj x)) old = refl

lookup-copy_details :
    (details : Dict Value) (ks : List String) (key : String) (d : Dict Value)
    → str_in key ks ≡ true
    → lookup key (copy_details details ks d) ≡ detail_or (lookup key details) (lookup key d)
unfolding copy_details
lookup-copy_details details [] key d h = absurd (ground arith)
lookup-copy_details details (k ∷ ks) key d h =
    let d' = copy_detail k (lookup k details) d in
    elim (Bool-cases (str_eq key k)) [
      | inl e ↦
          let same : k ≡ key = ground (arith, eq_iff key k) in
          let first : lookup key d' ≡ detail_or (lookup key details) (lookup key d) =
            rw same (lookup-copy_detail key (lookup key details) d) in
          elim (Bool-cases (str_in key ks)) [
            | inl f ↦
                lookup-copy_details details ks key d' f
                ∙ ap (detail_or (lookup key details)) first
                ∙ detail_or-twice (lookup key details) (lookup key d)
            | inr f ↦ copy_details-other details ks key d' f ∙ first
          ]
      | inr e ↦
          let ne : k ≢ key = λ q. ground (arith, eq_iff key k) in
          lookup-copy_details details ks key d' (ground arith)
          ∙ ap (detail_or (lookup key details)) (copy_detail-other k key (lookup k details) d ne)
    ]

-- The keys that each report writes.
abbrev pub report_keys : List String
report_keys = "status" ∷ "source" ∷ "command_id" ∷ "last_error" ∷ "updated_at" ∷ []

abbrev none_in : List String → List String → Bool
none_in ws [] = true
none_in ws (k ∷ ks) = not (str_in k ws) && none_in ws ks

not_both :
    (ws ks : List String) (key : String)
    → none_in ws ks ≡ true
    → str_in key ks ≡ true
    → str_in key ws ≡ false
not_both ws [] key n h = absurd (ground arith)
not_both ws (k ∷ ks) key n h = elim (Bool-cases (str_eq key k)) [
  | inl e ↦
      let same : k ≡ key = ground (arith, eq_iff key k) in
      let out : str_in k ws ≡ false = ground arith in subst (λ x. str_in x ws ≡ false) same out
  | inr e ↦ not_both ws ks key (ground arith) (ground arith)
]

fields_written-other :
    (r : AgentReport) (now : ℕ) (key : String) (d : Dict Value)
    → str_in key report_keys ≡ false
    → lookup key (fields_written r now d) ≡ lookup key d
fields_written-other r now key d h =
    let d1 = insert "status" (str r.status) d in
    let d2 = insert "source" (text_or_null r.source) d1 in
    let d3 = insert "command_id" (text_or_null r.command_id) d2 in
    let d4 = insert "last_error" (text_or_null r.error) d3 in
    ground (
      arith,
      lookup-insert "updated_at" key (int now) d4,
      lookup-insert "last_error" key (text_or_null r.error) d3,
      lookup-insert "command_id" key (text_or_null r.command_id) d2,
      lookup-insert "source" key (text_or_null r.source) d1,
      lookup-insert "status" key (str r.status) d,
      eq_iff "updated_at" key,
      eq_iff "last_error" key,
      eq_iff "command_id" key,
      eq_iff "source" key,
      eq_iff "status" key,
      eq_iff key "updated_at",
      eq_iff key "last_error",
      eq_iff key "command_id",
      eq_iff key "source",
      eq_iff key "status",
    )

module _ (r : AgentReport) (now seen : ℕ) (d : Dict Value) where
  abbrev copied : Dict Value
  copied = copy_details r.details detail_keys (fields_written r now d)

  abbrev is_seen : Bool
  is_seen = str_in r.status ("paired" ∷ "online" ∷ "accepted" ∷ [])

  report_fields-other :
      (key : String)
      → "last_seen_at" ≢ key
      → lookup key (report_fields r now seen d) ≡ lookup key copied
  unfolding report_fields
  report_fields-other key ne =
      ground (arith, lookup-insert "last_seen_at" key (int seen) copied, eq_iff "last_seen_at" key)

  report_fields-seen :
      lookup "last_seen_at" (report_fields r now seen d)
      ≡ (if is_seen then some (int seen) else lookup "last_seen_at" d)
  unfolding report_fields
  report_fields-seen =
      let kept : lookup "last_seen_at" copied ≡ lookup "last_seen_at" d =
        copy_details-other r.details detail_keys "last_seen_at" (fields_written r now d) refl
        ∙ fields_written-other r now "last_seen_at" d refl in
      elim (Bool-cases is_seen) [
        | inl e ↦ rw e (lookup-insert "last_seen_at" "last_seen_at" (int seen) copied)
        | inr e ↦ rw e kept
      ]

  report_fields-field :
      (key : String)
      → "last_seen_at" ≢ key
      → str_in key detail_keys ≡ false
      → lookup key (report_fields r now seen d) ≡ lookup key (fields_written r now d)
  report_fields-field key ne h =
      report_fields-other key ne
      ∙ copy_details-other r.details detail_keys key (fields_written r now d) h

  report_fields-detail :
      (key : String)
      → str_in key detail_keys ≡ true
      → lookup key (report_fields r now seen d) ≡ detail_or (lookup key r.details) (lookup key d)
  report_fields-detail key h =
      let seen_out : "last_seen_at" ≢ key = λ e.
        let out = not_both ("last_seen_at" ∷ []) detail_keys key refl h in
        ground (arith, eq_iff key "last_seen_at") in
      report_fields-other key seen_out
      ∙ lookup-copy_details r.details detail_keys key (fields_written r now d) h
      ∙ ap (detail_or (lookup key r.details))
          (fields_written-other r now key d (not_both report_keys detail_keys key refl h))

  report_fields-kept :
      (key : String)
      → "last_seen_at" ≢ key
      → str_in key detail_keys ≡ false
      → str_in key report_keys ≡ false
      → lookup key (report_fields r now seen d) ≡ lookup key d
  report_fields-kept key ne h k = report_fields-field key ne h ∙ fields_written-other r now key d k

-- What a report makes of the client's shutdown entry: its status and the other fields of the call, the
-- times, the details that the answer has; and what it keeps.
pub record IsEntry (r : AgentReport) (now seen : ℕ) (old new : Dict Value) : Type 0 where
  pub status : lookup "status" new ≡ some (str r.status)
  pub source : lookup "source" new ≡ some (text_or_null r.source)
  pub command : lookup "command_id" new ≡ some (text_or_null r.command_id)
  pub error : lookup "last_error" new ≡ some (text_or_null r.error)
  pub updated : lookup "updated_at" new ≡ some (int now)
  pub seen_at : lookup "last_seen_at" new ≡ (
      if str_in r.status ("paired" ∷ "online" ∷ "accepted" ∷ [])
      then some (int seen)
      else lookup "last_seen_at" old)
  pub details :
      (key : String)
      → str_in key detail_keys ≡ true
      → lookup key new ≡ detail_or (lookup key r.details) (lookup key old)
  pub kept :
      (key : String)
      → "last_seen_at" ≢ key
      → str_in key detail_keys ≡ false
      → str_in key report_keys ≡ false
      → lookup key new ≡ lookup key old

differs : (k key : String) → str_eq k key ≡ false → k ≢ key
differs k key e q = ground (arith, eq_iff k key)

pub report_fields-IsEntry :
    (r : AgentReport) (now seen : ℕ) (d : Dict Value)
    → IsEntry r now seen d (report_fields r now seen d)
report_fields-IsEntry r now seen d =
    let at =
      λ (key : String) (n : str_eq "last_seen_at" key ≡ false) (h : str_in key detail_keys ≡ false).
        report_fields-field r now seen d key (differs "last_seen_at" key n) h in
    record {
      status = at "status" refl refl ∙ simp lookup-insert;
      source = at "source" refl refl ∙ simp lookup-insert;
      command = at "command_id" refl refl ∙ simp lookup-insert;
      error = at "last_error" refl refl ∙ simp lookup-insert;
      updated = at "updated_at" refl refl ∙ simp lookup-insert;
      seen_at = report_fields-seen r now seen d;
      details = report_fields-detail r now seen d;
      kept = report_fields-kept r now seen d;
    }
