-- ===== src/Enrollment/Store.antt =====
-- wolnut/enrollment.py: the operations of `EnrollmentStore`.
use wolnut_webui.Common.{
  ℕ, ◌+◌, String, not, ◌&&◌, Option, none, some, ltb, if◌then◌else◌, Result, ok, err,
}
use wolnut_webui.Common.Text.{strip}
use wolnut_webui.Common.Dict.{Dict, lookup, insert, modify}
use wolnut_webui.Enrollment.{
  EnrollmentStatus, pending, expired, paired, failed, Details, Enrollment, StoreFile,
  EnrollmentFailure, enrollment_error, Write, Call, read, write, with_records, is_pending, is_live,
  is_claimed, with_status, close_records, Created, find, update_found, same_agent, claimed_by,
}

abbrev pub not_found : EnrollmentFailure
not_found = enrollment_error "Enrollment session was not found"

abbrev pub used : EnrollmentFailure
used = enrollment_error "Enrollment token has already been used"

abbrev pub out_of_time : EnrollmentFailure
out_of_time = enrollment_error "Enrollment token has expired"

abbrev pub unknown_token : EnrollmentFailure
unknown_token = enrollment_error "Enrollment token is invalid"

-- What `claim` does with the record that it found.
unfoldable pub claim_found :
    String
    → String
    → String
    → ℕ
    → Write
    → StoreFile
    → Dict Enrollment
    → Option (String × Enrollment)
    → Call (String × Details)
unfolding write
claim_found hash agent_id csr_hash now w file records none = (err unknown_token, file)
claim_found hash agent_id csr_hash now w file records (some (id, r)) =
    if ltb r.details.expires_at now
    then write w (update_found hash (with_status expired) records) (err out_of_time) file
    else if not (is_pending r.details.status)
    then if is_claimed r.details.status && same_agent r.details agent_id csr_hash
      then (ok (id, r.details), file)
      else (err used, file)
    else write w (update_found hash (claimed_by agent_id csr_hash) records)
        (ok (id, (claimed_by agent_id csr_hash r).details)) file

unfoldable pub bootstrap_found :
    String → ℕ → Write → StoreFile → Dict Enrollment → Option (String × Enrollment) → Call Details
unfolding write
bootstrap_found hash now w file records none = (err unknown_token, file)
bootstrap_found hash now w file records (some (id, r)) =
    if ltb r.details.expires_at now
    then write w (update_found hash (with_status expired) records) (err out_of_time) file
    else if not (is_pending r.details.status)
    then (err used, file)
    else (ok r.details, file)

-- `token_hash` is SHA-256 in hexadecimal.
module _ (token_hash : String → String) where
  abbrev pub new_enrollment : String → ℕ → ℕ → String → ℕ → Enrollment
  new_enrollment client_name agent_port lifetime token now = record {
    token_hash = token_hash token;
    details = record {
      client_name = client_name;
      agent_port = agent_port;
      created_at = now;
      expires_at = now + lifetime;
      status = pending;
      agent_id = none;
      last_error = none;
      claimed_agent_id = none;
      claimed_csr_hash = none;
      completed_at = none;
    };
  }

  unfoldable pub create_closed :
      String
      → ℕ
      → ℕ
      → String
      → String
      → ℕ
      → Write
      → StoreFile
      → Result EnrollmentFailure (Dict Enrollment)
      → Call Created
  unfolding write
  create_closed client_name agent_port lifetime id token now w file (err e) = (err e, file)
  create_closed client_name agent_port lifetime id token now w file (ok records) =
      write w (insert id (new_enrollment client_name agent_port lifetime token now) records)
        (ok (record { enrollment_id = id; token = token; expires_at = now + lifetime })) file

  -- `id` and `token` are what the secrets module draws.
  unfoldable pub create : String → ℕ → ℕ → String → String → ℕ → Write → StoreFile → Call Created
  unfolding create_closed read close_records
  create client_name agent_port lifetime id token now w file =
      with_records (read file) file (λ records.
        create_closed client_name agent_port lifetime id token now w file
          (close_records client_name now records))

  unfoldable pub claim : String → String → String → ℕ → Write → StoreFile → Call (String × Details)
  unfolding claim_found read find
  claim token agent_id csr_hash now w file =
      let hash = token_hash (strip token) in
      with_records (read file) file
        (λ records. claim_found hash agent_id csr_hash now w file records (find hash records))

  unfoldable pub bootstrap : String → ℕ → Write → StoreFile → Call Details
  unfolding bootstrap_found read find
  bootstrap token now w file =
      let hash = token_hash (strip token) in
      with_records (read file) file
        (λ records. bootstrap_found hash now w file records (find hash records))

abbrev pub with_result :
    EnrollmentStatus → Option String → Option String → ℕ → Enrollment → Enrollment
with_result status agent_id error now r = record r {
  details = record r.details {
    status = status;
    agent_id = agent_id;
    last_error = error;
    completed_at = some now;
  };
}

-- `_set_result`
unfoldable pub set_result :
    String
    → EnrollmentStatus
    → Option String
    → Option String
    → ℕ
    → Write
    → StoreFile
    → Call (Unit {0})
unfolding read write
set_result id status agent_id error now w file = with_records (read file) file (λ records.
    elim (lookup id records) [
      | none ↦ (err not_found, file)
      | some r ↦ write w (modify id (with_result status agent_id error now) records) (ok tt) file
    ])

unfoldable pub complete : String → String → ℕ → Write → StoreFile → Call (Unit {0})
unfolding set_result
complete id agent_id now w file = set_result id paired (some agent_id) none now w file

unfoldable pub fail : String → String → ℕ → Write → StoreFile → Call (Unit {0})
unfolding set_result
fail id error now w file = set_result id failed none (some error) now w file

-- The status that `status` reports.
abbrev pub shown : ℕ → Details → Details
shown now d = if is_live d.status && ltb d.expires_at now then record d { status = expired } else d

unfoldable pub status : String → ℕ → StoreFile → Result EnrollmentFailure Details
unfolding read
status id now file = elim (read file) [
  | err e ↦ err e
  | ok records ↦ elim (lookup id records) [
    | none ↦ err not_found
    | some r ↦ ok (shown now r.details)
  ]
]
