-- ===== src/Enrollment/Results.antt =====
-- wolnut/enrollment.py: what `status` reports after `complete` and `fail`.
use wolnut_webui.Common.{
  ℕ, String, false, Option, none, some, [], ◌≡◌, ◌≢◌, refl, inl, inr, ok, arith, eq_iff, eq_refl,
  Option-cases,
}
use wolnut_webui.Common.Dict.{lookup, modify, lookup-modify}
use wolnut_webui.Enrollment.{
  EnrollmentStatus, paired, failed, Details, Enrollment, StoreFile, absent, unreadable,
  not_a_dictionary, stored, Write, read, write, is_live,
}
use wolnut_webui.Enrollment.Store.{complete, fail, status, set_result, with_result}

-- The session reports the result that it ended with, and the others report what they did.
abbrev pub EndsWith :
    EnrollmentStatus → Option String → Option String → String → ℕ → StoreFile → StoreFile → Type 0
EndsWith s agent_id error id later file file' =
    ((d : Details) × (status id later file' ≡ ok d)
      × (d.status ≡ s)
      × (d.agent_id ≡ agent_id)
      × (d.last_error ≡ error))
    × ((other : String) → id ≢ other → status other later file' ≡ status other later file)

no_records : (id : String) → lookup {V = Enrollment} id [] ≡ none
unfolding lookup
no_records id = refl

set_result-EndsWith :
    (s : EnrollmentStatus) (agent_id error : Option String) (id : String) (now later : ℕ)
    (w : Write) (file file' : StoreFile)
    → is_live s ≡ false
    → set_result id s agent_id error now w file ≡ (ok tt, file')
    → EndsWith s agent_id error id later file file'
unfolding set_result status read write
set_result-EndsWith s agent_id error id now later w absent file' over e =
    absurd (ground (arith, no_records id))
set_result-EndsWith s agent_id error id now later w unreadable file' over e = absurd (ground arith)
set_result-EndsWith s agent_id error id now later w not_a_dictionary file' over e =
    absurd (ground arith)
set_result-EndsWith s agent_id error id now later w (stored records) file' over e =
    elim (Option-cases (lookup id records)) [
      | inl f ↦ absurd (ground arith)
      | inr (r, f) ↦
          let new : file' ≡ stored (modify id (with_result s agent_id error now) records) =
            ground arith in
          let found = lookup-modify id id (with_result s agent_id error now) records in
          (
            (
              (with_result s agent_id error now r).details,
              rw new (ground (arith, found, eq_refl id)),
              refl,
              refl,
              refl,
            ),
            λ other n. rw new (
                ground (
                  arith,
                  lookup-modify id other (with_result s agent_id error now) records,
                  eq_iff id other,
                )),
          )
    ]

-- After a `complete` that returned, the session reports "paired", with the agent and without an error,
-- at any time, and every other session reports what it did before.
pub complete-EndsWith :
    (id agent_id : String) (now later : ℕ) (w : Write) (file file' : StoreFile)
    → complete id agent_id now w file ≡ (ok tt, file')
    → EndsWith paired (some agent_id) none id later file file'
unfolding complete
complete-EndsWith id agent_id now later w file file' e =
    set_result-EndsWith paired (some agent_id) none id now later w file file' refl e

-- After a `fail` that returned, the session reports "failed", with the error and without an agent, at
-- any time, and every other session reports what it did before.
fail-EndsWith :
    (id error : String) (now later : ℕ) (w : Write) (file file' : StoreFile)
    → fail id error now w file ≡ (ok tt, file')
    → EndsWith failed none (some error) id later file file'
unfolding fail
fail-EndsWith id error now later w file file' e =
    set_result-EndsWith failed none (some error) id now later w file file' refl e
