-- ===== src/State/Save.antt =====
-- wolnut/state.py: `save_state`. `json.dumps` and `md5` are the parameters `dumps` (`none` where it
-- raises) and `md5`; the file system answers whether the write of the temporary file and its move
-- succeed.
use wolnut_webui.Common.{
  String, Bool, true, false, Option, none, some, str_eq, ◌≡◌, ◌∙◌, ap, ◌⊎◌, arith, eq_iff, eq_refl,
  if◌then◌else◌, Bool-cases, Option-cases, inl, inr,
}
use wolnut_webui.Common.Dict.{Dict}
use wolnut_webui.State.{ClientState, MetaState, Tracker}

-- Whether the two file operations of one call succeed.
pub record Disk : Type 0 where
  pub can_write : Bool
  pub can_replace : Bool

abbrev same_hash : Option String → String → Bool
same_hash none new = false
same_hash (some old) new = str_eq old new

module _ (dumps : MetaState → Dict ClientState → Option String) (md5 : String → String) where
  -- The tracker and the text of the state file after the call.
  save_text : Option String → Disk → Tracker → Option String → Tracker × Option String
  save_text none disk t file = (t, file)
  save_text (some raw) disk t file =
      if same_hash t.status_hash (md5 raw)
      then (t, file)
      else if disk.can_write
      then (
        record t { status_hash = some (md5 raw); dirty = false },
        if disk.can_replace then some raw else file,
      )
      else (t, file)

  unfoldable pub save_state : Disk → Tracker → Option String → Tracker × Option String
  unfolding save_text
  save_state disk t file =
      if t.dirty then save_text (dumps t.meta t.clients) disk t file else (t, file)

  -- A text has the hash that the tracker keeps of its file.
  abbrev pub IsHashOf : Tracker → Option String → Type 0
  IsHashOf t file =
      (h : String) → t.status_hash ≡ some h → (raw : String) × (file ≡ some raw) × (md5 raw ≡ h)

  -- The file's text and `raw` do not collide under md5.
  abbrev pub NoCollision : Option String → String → Type 0
  NoCollision file raw = (old : String) → file ≡ some old → md5 old ≡ md5 raw → old ≡ raw

  text-same_hash :
      (t : Tracker) (file : Option String) (raw : String)
      → NoCollision file raw
      → IsHashOf t file
      → same_hash t.status_hash (md5 raw) ≡ true
      → file ≡ some raw
  text-same_hash t file raw apart hashed same = elim (Option-cases t.status_hash) [
    | inl e ↦ cc (rw e at same)
    | inr (h, e) ↦
        let (old, here, sum) = hashed h e in
        let equal : md5 old ≡ md5 raw = sum ∙ (eq_iff h (md5 raw)).0 (rw e at same) in
        here ∙ ap some (apart old here equal)
  ]

  same_hash_text :
      (t : Tracker) (raw : String)
      → same_hash t.status_hash (md5 raw) ≡ true
      → t.status_hash ≡ some (md5 raw)
  same_hash_text t raw same = elim (Option-cases t.status_hash) [
    | inl e ↦ cc (rw e at same)
    | inr (h, e) ↦ e ∙ ap some ((eq_iff h (md5 raw)).0 (rw e at same))
  ]

  -- On a disk that works, a dirty tracker whose state has the text `raw` leaves `raw` in the file and a
  -- hash that belongs to it. The hash that the tracker holds must be that of the file's text, and the
  -- file's text must not collide with `raw`.
  pub save_state-stores :
      (disk : Disk) (t : Tracker) (file : Option String) (raw : String)
      → NoCollision file raw
      → IsHashOf t file
      → t.dirty ≡ true
      → dumps t.meta t.clients ≡ some raw
      → disk.can_write ≡ true
      → disk.can_replace ≡ true
      → ((save_state disk t file).1 ≡ some raw)
        × ((save_state disk t file).0.status_hash ≡ some (md5 raw))
  unfolding save_state
  save_state-stores disk t file raw apart hashed d e w r =
      elim (Bool-cases (same_hash t.status_hash (md5 raw))) [
        | inl same ↦
            ground (arith, text-same_hash t file raw apart hashed same, same_hash_text t raw same)
        | inr other ↦ ground arith
      ]

  -- Where a dirty tracker's state has a text with a new hash, the temporary file is written and the
  -- move fails, the file keeps its text, and the tracker counts its state as saved: a later call with
  -- the same state writes nothing, whatever the dirty flag says and the disk can do.
  pub save_state-failed_replace :
      (disk later : Disk) (t : Tracker) (file : Option String) (raw : String) (flag : Bool)
      → t.dirty ≡ true
      → dumps t.meta t.clients ≡ some raw
      → same_hash t.status_hash (md5 raw) ≡ false
      → disk.can_write ≡ true
      → disk.can_replace ≡ false
      → ((save_state disk t file).1 ≡ file)
        × ((save_state disk t file).0.dirty ≡ false)
        × ((save_state later (record (save_state disk t file).0 { dirty = flag }) file).1 ≡ file)
  unfolding save_state
  save_state-failed_replace disk later t file raw flag d e n w r = ground (arith, eq_refl (md5 raw))

  -- Where the state has no text, or the temporary file cannot be written, the call changes neither the
  -- tracker nor the file.
  save_state-failed_write :
      (disk : Disk) (t : Tracker) (file : Option String)
      → (dumps t.meta t.clients ≡ none) ⊎ (disk.can_write ≡ false)
      → save_state disk t file ≡ (t, file)
  unfolding save_state
  save_state-failed_write disk t file h = ground arith

  pub clients-save_state :
      (disk : Disk) (t : Tracker) (file : Option String)
      → (save_state disk t file).0.clients ≡ t.clients
  unfolding save_state
  clients-save_state disk t file = ground arith
