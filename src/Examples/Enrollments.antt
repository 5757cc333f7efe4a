-- ===== src/Examples/Enrollments.antt =====
-- wolnut/enrollment.py: one session, tried.
use wolnut_webui.Common.{
  false, arith, ◌≤◌, String, true, false, none, some, [], ◌∷◌, ◌≡◌, ◌≢◌, refl, truthy, ok,
}
use wolnut_webui.Common.Text.{strip}
use wolnut_webui.Common.Dict.{Dict, lookup, insert, contains}
use wolnut_webui.Enrollment.{
  Enrollment, StoreFile, absent, stored, written, is_live, claimed_by, Created, read, write, find,
  update_found, close_records,
}
use wolnut_webui.Enrollment.Store.{new_enrollment, create, create_closed, claim, claim_found}
use wolnut_webui.Enrollment.Tokens.{claim-single_use}
use wolnut_webui.Enrollment.Sessions.{create-only_live, claim-create}

-- A hash of few tokens.
abbrev digest : String → String
digest s = s

abbrev waiting : Enrollment
waiting = new_enrollment digest "nas" 8184 600 "tok" 100

abbrev taken : Enrollment
taken = claimed_by "a1" "c1" waiting

abbrev waiting_file : StoreFile
waiting_file = stored (("e1", waiting) ∷ [])

abbrev taken_file : StoreFile
taken_file = stored (("e1", taken) ∷ [])

claim-single_use_example :
    (◌≡◌ {A = String} "a1" "a1")
    × (◌≡◌ {A = String} "c1" "c1")
    × (truthy "a1" ≡ true)
    × (truthy "c1" ≡ true)
    × (300 ≤ taken.details.expires_at)
    × (◌≡◌ {A = String} "e1" "e1")
    × (taken.details ≡ taken.details)
    × (taken_file ≡ taken_file)
unfolding claim claim_found read find update_found write strip
claim-single_use_example =
    claim-single_use digest "tok" "a1" "c1" "a1" "c1" 200 300 written written waiting_file
      taken_file taken_file "e1" "e1" taken.details taken.details refl refl

abbrev created : Created
created = record { enrollment_id = "e1"; token = "tok"; expires_at = 700 }

create-only_live_example :
    (d : Dict Enrollment) × (waiting_file ≡ stored d)
    × (lookup "e1" d ≡ some waiting)
    × ((j : String) (r : Enrollment)
        → "e1" ≢ j
        → lookup j d ≡ some r
        → r.details.client_name ≡ "nas"
        → is_live r.details.status ≡ false)
unfolding create create_closed read write close_records insert
create-only_live_example =
    create-only_live digest "nas" 8184 600 "e1" "tok" 100 written absent waiting_file created refl

nothing_there :
    (d : Dict Enrollment) → read absent ≡ ok d → (find "tok" d ≡ none) × (contains "e1" d ≡ false)
unfolding read find contains
nothing_there [] e = (refl, refl)
nothing_there ((i, r) ∷ d) e = absurd (ground arith)

claim-create_example :
    (claim digest "tok" "a1" "c1" 700 written waiting_file).0 ≡ ok ("e1", taken.details)
unfolding create create_closed read write close_records insert find contains strip
claim-create_example =
    claim-create digest "nas" 8184 600 "e1" "tok" 100 written absent waiting_file created "a1" "c1"
      700 refl nothing_there refl (omega arith)
