-- ===== src/Enrollment.antt =====
-- wolnut/enrollment.py: `EnrollmentStore`, the one-time tokens by which an agent enrolls itself. The
-- records keep their order; the file sorts them by id, which no operation but the search for a token
-- sees. A lifetime is not negative.
pub mod Store
pub mod Tokens
pub mod Sessions
pub mod Results
use wolnut_webui.Common.{
  ℕ, ◌+◌, String, Bool, true, false, not, ◌&&◌, ◌||◌, Option, none, some, List, [], ◌∷◌, ltb,
  truthy, str_eq, if◌then◌else◌, Result, ok, err,
}
use wolnut_webui.Common.Text.{strip}
use wolnut_webui.Common.Dict.{Dict, lookup, insert, modify}

pub data EnrollmentStatus : Type 0 where
  pending processing expired superseded paired failed : EnrollmentStatus

-- A record without its "token_hash". The keys that `claim` and `_set_result` add count as None before.
pub record Details : Type 0 where
  pub client_name : String
  pub agent_port : ℕ
  pub created_at : ℕ
  pub expires_at : ℕ
  pub status : EnrollmentStatus
  pub agent_id : Option String
  pub last_error : Option String
  pub claimed_agent_id : Option String
  pub claimed_csr_hash : Option String
  pub completed_at : Option ℕ

pub record Enrollment : Type 0 where
  pub token_hash : String
  pub details : Details

-- The file of the store.
pub data StoreFile : Type 0 where
  absent : StoreFile
  unreadable : StoreFile
  not_a_dictionary : StoreFile
  stored : Dict Enrollment → StoreFile

-- EnrollmentError with its text, or an OSError of `_write_unlocked`.
pub data EnrollmentFailure : Type 0 where
  enrollment_error : String → EnrollmentFailure
  write_error : EnrollmentFailure

-- What comes of `_write_unlocked`: it raises before the file is replaced, or after, or not at all.
pub data Write : Type 0 where
  written : Write
  not_replaced : Write
  replaced : Write

-- What a call returns or raises, and the file after it.
abbrev pub Call {ℓ} : Type ℓ → Type ℓ
Call A = Result EnrollmentFailure A × StoreFile

unfoldable pub read : StoreFile → Result EnrollmentFailure (Dict Enrollment)
read absent = ok []
read unreadable = err (enrollment_error "Enrollment state is unavailable")
read not_a_dictionary = err (enrollment_error "Enrollment state is invalid")
read (stored records) = ok records

-- `_write_unlocked`, and then the result.
unfoldable pub write {ℓ} :
    {A : Type ℓ} → Write → Dict Enrollment → Result EnrollmentFailure A → StoreFile → Call A
write written records result file = (result, stored records)
write not_replaced records result file = (err write_error, file)
write replaced records result file = (err write_error, stored records)

-- The first part of an operation: the records, or the error of the read.
abbrev pub with_records {ℓ} :
    {A : Type ℓ}
    → Result EnrollmentFailure (Dict Enrollment)
    → StoreFile
    → (Dict Enrollment → Call A)
    → Call A
with_records (ok records) file f = f records
with_records (err e) file f = (err e, file)

abbrev pub is_pending : EnrollmentStatus → Bool
is_pending pending = true
is_pending _ = false

-- status in {"pending", "processing"}
abbrev pub is_live : EnrollmentStatus → Bool
is_live pending = true
is_live processing = true
is_live _ = false

-- status in {"processing", "paired"}
abbrev pub is_claimed : EnrollmentStatus → Bool
is_claimed processing = true
is_claimed paired = true
is_claimed _ = false

abbrev pub with_status : EnrollmentStatus → Enrollment → Enrollment
with_status s r = record r { details = record r.details { status = s } }

abbrev pub in_progress : EnrollmentFailure
in_progress = enrollment_error "An agent enrollment is already in progress for this client"

-- A record of the client in the loop of `create`, not expired.
unfoldable pub close_status : EnrollmentStatus → Result EnrollmentFailure EnrollmentStatus
close_status processing = err in_progress
close_status pending = ok superseded
close_status s = ok s

-- The body of the loop of `create`, by the status that the record has after it.
unfoldable pub close_record : String → ℕ → Details → Result EnrollmentFailure EnrollmentStatus
unfolding close_status
close_record client_name now d =
    if not (str_eq d.client_name client_name)
    then ok d.status
    else if ltb d.expires_at now && is_live d.status
    then ok expired
    else close_status d.status

abbrev push_record :
    String
    → Enrollment
    → Result EnrollmentFailure EnrollmentStatus
    → Result EnrollmentFailure (Dict Enrollment)
    → Result EnrollmentFailure (Dict Enrollment)
push_record id r (ok s) (ok rest) = ok ((id, with_status s r) ∷ rest)
push_record id r (err e) rest = err e
push_record id r (ok s) (err e) = err e

unfoldable pub close_records :
    String → ℕ → Dict Enrollment → Result EnrollmentFailure (Dict Enrollment)
unfolding close_record
close_records client_name now [] = ok []
close_records client_name now ((id, r) ∷ rest) =
    push_record id r (close_record client_name now r.details) (close_records client_name now rest)

-- What `create` returns.
pub record Created : Type 0 where
  pub enrollment_id : String
  pub token : String
  pub expires_at : ℕ

-- The record with the hash of a token, the first if there are several.
unfoldable pub find : String → Dict Enrollment → Option (String × Enrollment)
find hash [] = none
find hash ((id, r) ∷ rest) = if str_eq r.token_hash hash then some (id, r) else find hash rest

-- A write through the record that `find` finds.
unfoldable pub update_found : String → (Enrollment → Enrollment) → Dict Enrollment → Dict Enrollment
update_found hash f [] = []
update_found hash f ((id, r) ∷ rest) =
    if str_eq r.token_hash hash then (id, f r) ∷ rest else (id, r) ∷ update_found hash f rest

-- x or None
abbrev pub text_or_none : String → Option String
text_or_none s = if truthy s then some s else none

abbrev pub option_eq : Option String → String → Bool
option_eq none t = false
option_eq (some s) t = str_eq s t

abbrev pub same_agent : Details → String → String → Bool
same_agent d agent_id csr_hash =
    truthy agent_id
    && truthy csr_hash
    && option_eq d.claimed_agent_id agent_id
    && option_eq d.claimed_csr_hash csr_hash

abbrev pub claimed_by : String → String → Enrollment → Enrollment
claimed_by agent_id csr_hash r = record r {
  details = record r.details {
    status = processing;
    claimed_agent_id = text_or_none agent_id;
    claimed_csr_hash = text_or_none csr_hash;
  };
}
