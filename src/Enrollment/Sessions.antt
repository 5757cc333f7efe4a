-- ===== src/Enrollment/Sessions.antt =====
-- wolnut/enrollment.py: which sessions of a client are open, and how a session ends.
use wolnut_webui.Common.{
  ℕ, ◌+◌, ◌≤◌, String, false, none, some, [], ◌∷◌, ◌≡◌, ◌≢◌, refl, ◌∙◌, inl, inr, Result, ok, err,
  arith, eq_iff, eq_refl, Result-cases,
}
use wolnut_webui.Common.Text.{strip}
use wolnut_webui.Common.Dict.{Dict, lookup, insert, contains, lookup-insert}
use wolnut_webui.Enrollment.{
  EnrollmentStatus, processing, Enrollment, StoreFile, absent, unreadable, not_a_dictionary, stored,
  EnrollmentFailure, Write, written, read, write, with_status, find, claimed_by, is_live,
  close_records, close_record, close_status, in_progress, Created,
}
use wolnut_webui.Enrollment.Store.{new_enrollment, create, create_closed, claim, claim_found}

-- Not open for the client.
abbrev IsClosed : String → Enrollment → Type 0
IsClosed client_name r = r.details.client_name ≡ client_name → is_live r.details.status ≡ false

close_record-IsClosed :
    (client_name : String) (now : ℕ) (r : Enrollment) (s : EnrollmentStatus)
    → close_record client_name now r.details ≡ ok s
    → IsClosed client_name (with_status s r)
unfolding close_record close_status
close_record-IsClosed client_name now r s e same =
    ground (arith, eq_iff r.details.client_name client_name)

close_records-IsClosed :
    (client_name : String) (now : ℕ) (d d' : Dict Enrollment) (j : String) (r : Enrollment)
    → close_records client_name now d ≡ ok d'
    → lookup j d' ≡ some r
    → IsClosed client_name r
unfolding close_records lookup
close_records-IsClosed client_name now [] d' j r e f = absurd (ground arith)
close_records-IsClosed client_name now ((i, s) ∷ rest) d' j r e f =
    elim (Result-cases (close_record client_name now s.details)) [
      | inl (x, ex) ↦ elim (Result-cases (close_records client_name now rest)) [
        | inl (y, ey) ↦
            let closed = close_record-IsClosed client_name now s x ex in
            let later = close_records-IsClosed client_name now rest y j r ey in
            λ same. ground (arith, closed, later)
        | inr (z, ez) ↦ absurd (ground arith)
      ]
      | inr (z, ez) ↦ absurd (ground arith)
    ]

-- An open claim of the client stops the loop of `create`.
close_records-in_progress :
    (client_name : String) (now : ℕ) (d : Dict Enrollment) (j : String) (r : Enrollment)
    → lookup j d ≡ some r
    → r.details.client_name ≡ client_name
    → r.details.status ≡ processing
    → now ≤ r.details.expires_at
    → close_records client_name now d ≡ err in_progress
unfolding close_records close_record close_status lookup
close_records-in_progress client_name now [] j r f same busy live = absurd (ground arith)
close_records-in_progress client_name now ((i, s) ∷ rest) j r f same busy live =
    let later = close_records-in_progress client_name now rest j r in
    ground (arith, later, eq_iff s.details.client_name client_name)

-- The loop of `create` keeps the hashes.
find-close_records :
    (client_name hash : String) (now : ℕ) (d d' : Dict Enrollment)
    → close_records client_name now d ≡ ok d'
    → find hash d ≡ none
    → find hash d' ≡ none
unfolding close_records find
find-close_records client_name hash now [] d' e f = ground arith
find-close_records client_name hash now ((i, s) ∷ rest) d' e f =
    elim (Result-cases (close_record client_name now s.details)) [
      | inl (x, ex) ↦ elim (Result-cases (close_records client_name now rest)) [
        | inl (y, ey) ↦ ground (arith, find-close_records client_name hash now rest y ey)
        | inr (z, ez) ↦ absurd (ground arith)
      ]
      | inr (z, ez) ↦ absurd (ground arith)
    ]

contains-close_records :
    (client_name : String) (now : ℕ) (d d' : Dict Enrollment) (j : String)
    → close_records client_name now d ≡ ok d'
    → contains j d' ≡ contains j d
unfolding close_records contains
contains-close_records client_name now [] d' j e = ground arith
contains-close_records client_name now ((i, s) ∷ rest) d' j e =
    elim (Result-cases (close_record client_name now s.details)) [
      | inl (x, ex) ↦ elim (Result-cases (close_records client_name now rest)) [
        | inl (y, ey) ↦ ground (arith, contains-close_records client_name now rest y j ey)
        | inr (z, ez) ↦ absurd (ground arith)
      ]
      | inr (z, ez) ↦ absurd (ground arith)
    ]

find-insert :
    (hash id : String) (r : Enrollment) (d : Dict Enrollment)
    → find hash d ≡ none
    → contains id d ≡ false
    → r.token_hash ≡ hash
    → find hash (insert id r d) ≡ some (id, r)
unfolding find insert contains
find-insert hash id r [] f c same = ground (arith, eq_iff r.token_hash hash)
find-insert hash id r ((i, s) ∷ d) f c same = ground (arith, find-insert hash id r d)

module _ (token_hash : String → String) (client_name : String) (port lifetime : ℕ)
    (id token : String) (now : ℕ) (w : Write) where
  abbrev fresh : Enrollment
  fresh = new_enrollment token_hash client_name port lifetime token now

  create_closed-records :
      (file file' : StoreFile) (c : Created) (r : Result EnrollmentFailure (Dict Enrollment))
      → create_closed token_hash client_name port lifetime id token now w file r ≡ (ok c, file')
      → (d : Dict Enrollment) × (r ≡ ok d) × (file' ≡ stored (insert id fresh d))
  unfolding create_closed write
  create_closed-records file file' c (err e) h = absurd (ground arith)
  create_closed-records file file' c (ok d) h = (d, refl, ground arith)

  create-records :
      (file file' : StoreFile) (c : Created)
      → create token_hash client_name port lifetime id token now w file ≡ (ok c, file')
      → (d : Dict Enrollment) × (e : Dict Enrollment) × (read file ≡ ok d)
        × (close_records client_name now d ≡ ok e)
        × (file' ≡ stored (insert id fresh e))
  unfolding create read
  create-records absent file' c h =
      let (e, k, l) = create_closed-records absent file' c _ h in ([], e, refl, k, l)
  create-records unreadable file' c h = absurd (ground arith)
  create-records not_a_dictionary file' c h = absurd (ground arith)
  create-records (stored d) file' c h =
      let (e, k, l) = create_closed-records (stored d) file' c _ h in (d, e, refl, k, l)

  -- After a `create` that returned, the file has the new session, pending until the end of its lifetime,
  -- and no other session of the client is pending or processing.
  pub create-only_live :
      (file file' : StoreFile) (c : Created)
      → create token_hash client_name port lifetime id token now w file ≡ (ok c, file')
      → (d : Dict Enrollment) × (file' ≡ stored d)
        × (lookup id d ≡ some fresh)
        × ((j : String) (r : Enrollment)
            → id ≢ j
            → lookup j d ≡ some r
            → r.details.client_name ≡ client_name
            → is_live r.details.status ≡ false)
  create-only_live file file' c h =
      let (d, e, reads, closes, new) = create-records file file' c h in
      (
        insert id fresh e,
        new,
        ground (arith, lookup-insert id id fresh e, eq_refl id),
        λ j r n f same.
            close_records-IsClosed client_name now d e j r closes
              (ground (arith, lookup-insert id j fresh e, eq_iff id j)) same,
      )

  -- While a session of the client is processing and not expired, `create` raises and leaves the file.
  create-in_progress :
      (d : Dict Enrollment) (j : String) (r : Enrollment)
      → lookup j d ≡ some r
      → r.details.client_name ≡ client_name
      → r.details.status ≡ processing
      → now ≤ r.details.expires_at
      → create token_hash client_name port lifetime id token now w (stored d)
        ≡ (err in_progress, stored d)
  unfolding create read create_closed
  create-in_progress d j r f same busy live =
      rw (close_records-in_progress client_name now d j r f same busy live)

  -- A token that `create` drew, with an id and a hash that are not in the file, claims its session, at
  -- any time before the expiry, where the file can be written and the token has no space at its ends.
  pub claim-create :
      (file file' : StoreFile) (c : Created) (agent_id csr_hash : String) (later : ℕ)
      → create token_hash client_name port lifetime id token now w file ≡ (ok c, file')
      → ((d : Dict Enrollment)
          → read file ≡ ok d
          → (find (token_hash token) d ≡ none) × (contains id d ≡ false))
      → strip token ≡ token
      → later ≤ now + lifetime
      → (claim token_hash token agent_id csr_hash later written file').0
        ≡ ok (id, (claimed_by agent_id csr_hash fresh).details)
  unfolding claim claim_found read write
  claim-create file file' c agent_id csr_hash later h new bare live =
      let (d, e, reads, closes, eq) = create-records file file' c h in
      let (unknown, free) = new d reads in
      let there =
        find-insert (token_hash token) id fresh e
          (find-close_records client_name (token_hash token) now d e closes unknown)
          (contains-close_records client_name now d e id closes ∙ free) refl in
      rw eq (rw bare (rw there (ground arith)))
