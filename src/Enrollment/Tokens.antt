-- ===== src/Enrollment/Tokens.antt =====
-- wolnut/enrollment.py: who may use a token, and how often.
use wolnut_webui.Common.{
  ℕ, ◌≤◌, String, true, Option, none, some, [], ◌∷◌, ◌≡◌, refl, sym, ◌∙◌, inl, inr, truthy, ok,
  arith, eq_iff, Option-cases, Bool-cases,
}
use wolnut_webui.Common.Text.{strip}
use wolnut_webui.Common.Dict.{Dict}
use wolnut_webui.Enrollment.{
  Details, Enrollment, StoreFile, absent, unreadable, not_a_dictionary, stored, Write, read, write,
  find, update_found, claimed_by, is_claimed, same_agent, option_eq, is_pending, text_or_none,
}
use wolnut_webui.Enrollment.Store.{claim, claim_found}

-- A write through the found record is found again, if it keeps the hash.
find-update_found :
    (hash : String) (f : Enrollment → Enrollment) (records : Dict Enrollment)
    → ((r : Enrollment) → (f r).token_hash ≡ r.token_hash)
    → (id : String) (r : Enrollment) → find hash records ≡ some (id, r)
    → find hash (update_found hash f records) ≡ some (id, f r)
unfolding find update_found
find-update_found hash f [] keep id r e = cc
find-update_found hash f ((j, s) ∷ rest) keep id r e =
    ground (arith, keep s, find-update_found hash f rest keep id r)

option_eq-some : (o : Option String) (t : String) → option_eq o t ≡ true → o ≡ some t
option_eq-some none t h = cc
option_eq-some (some s) t h = ground (arith, eq_iff s t)

-- The agent and its request that a record was claimed with.
same_agent_lem :
    (d : Details) (agent_id csr_hash : String)
    → same_agent d agent_id csr_hash ≡ true
    → (truthy agent_id ≡ true)
      × (truthy csr_hash ≡ true)
      × (d.claimed_agent_id ≡ some agent_id)
      × (d.claimed_csr_hash ≡ some csr_hash)
same_agent_lem d agent_id csr_hash h =
    ground (
      arith,
      option_eq-some d.claimed_agent_id agent_id,
      option_eq-some d.claimed_csr_hash csr_hash,
    )

-- What a claim that returned says of the record it found.
record Claimed (agent_id csr_hash : String) (now : ℕ) (d : Details) : Type 0 where
  live : now ≤ d.expires_at
  taken : is_claimed d.status ≡ true
  agent : d.claimed_agent_id ≡ text_or_none agent_id
  csr : d.claimed_csr_hash ≡ text_or_none csr_hash

claim_found-Claimed :
    (hash agent_id csr_hash : String) (now : ℕ) (w : Write) (file file' : StoreFile)
    (records : Dict Enrollment) (id i : String) (r : Enrollment) (d : Details)
    → claim_found hash agent_id csr_hash now w file records (some (i, r)) ≡ (ok (id, d), file')
    → Claimed agent_id csr_hash now d
unfolding claim_found write
claim_found-Claimed hash agent_id csr_hash now w file file' records id i r d e = record {
  live = ground arith;
  taken = ground arith;
  agent = ground (arith, same_agent_lem r.details agent_id csr_hash);
  csr = ground (arith, same_agent_lem r.details agent_id csr_hash);
}

-- The file after a claim that returned: the token's record is the one that was returned.
record Stored (hash id : String) (d : Details) (file : StoreFile) : Type 0 where
  records : Dict Enrollment
  found : Enrollment
  file_eq : file ≡ stored records
  find_eq : find hash records ≡ some (id, found)
  details_eq : found.details ≡ d

claim_found-Stored :
    (hash agent_id csr_hash : String) (now : ℕ) (w : Write) (file' : StoreFile)
    (records : Dict Enrollment) (id i : String) (r : Enrollment) (d : Details)
    → find hash records ≡ some (i, r)
    → claim_found hash agent_id csr_hash now w (stored records) records (some (i, r))
      ≡ (ok (id, d), file')
    → Stored hash id d file'
unfolding claim_found write
claim_found-Stored hash agent_id csr_hash now w file' records id i r d f e =
    elim (Bool-cases (is_pending r.details.status)) [
      | inl p ↦ record {
        records = update_found hash (claimed_by agent_id csr_hash) records;
        found = claimed_by agent_id csr_hash r;
        file_eq = ground arith;
        find_eq = ground (
          arith,
          find-update_found hash (claimed_by agent_id csr_hash) records (λ _. refl) i r f,
        );
        details_eq = ground arith;
      }
      | inr p ↦ record {
        records = records;
        found = r;
        file_eq = ground arith;
        find_eq = ground arith;
        details_eq = ground arith;
      }
    ]

claim_found-again :
    (hash agent_id csr_hash : String) (now : ℕ) (w : Write) (file file' : StoreFile)
    (records : Dict Enrollment) (id i : String) (r : Enrollment) (d : Details)
    → is_claimed r.details.status ≡ true
    → claim_found hash agent_id csr_hash now w file records (some (i, r)) ≡ (ok (id, d), file')
    → (id ≡ i) × (d ≡ r.details) × (file' ≡ file) × (same_agent r.details agent_id csr_hash ≡ true)
unfolding claim_found write
claim_found-again hash agent_id csr_hash now w file file' records id i r d h e = ground arith

module _ (token_hash : String → String) (token : String) where
  abbrev hash : String
  hash = token_hash (strip token)

  claim-found :
      (agent_id csr_hash : String) (now : ℕ) (w : Write) (file file' : StoreFile) (id : String)
      (d : Details)
      → claim token_hash token agent_id csr_hash now w file ≡ (ok (id, d), file')
      → Claimed agent_id csr_hash now d × Stored hash id d file'
  unfolding claim claim_found read find
  claim-found agent_id csr_hash now w absent file' id d e = absurd (ground arith)
  claim-found agent_id csr_hash now w unreadable file' id d e = absurd (ground arith)
  claim-found agent_id csr_hash now w not_a_dictionary file' id d e = absurd (ground arith)
  claim-found agent_id csr_hash now w (stored records) file' id d e =
      elim (Option-cases (find hash records)) [
        | inl f ↦ absurd (let k = rw f at e in ground arith)
        | inr ((i, r), f) ↦
            let k = rw f at e in
            (
              claim_found-Claimed hash agent_id csr_hash now w (stored records) file' records id i r
                  d k,
              claim_found-Stored hash agent_id csr_hash now w file' records id i r d f k,
            )
      ]

  claim-again :
      (agent_id csr_hash : String) (now : ℕ) (w : Write) (file file' : StoreFile) (id i : String)
      (d e : Details)
      → Stored hash i e file
      → is_claimed e.status ≡ true
      → claim token_hash token agent_id csr_hash now w file ≡ (ok (id, d), file')
      → (id ≡ i) × (d ≡ e) × (file' ≡ file) × (same_agent e agent_id csr_hash ≡ true)
  unfolding claim read
  claim-again agent_id csr_hash now w file file' id i d e s h k =
      let k' = rw s.file_eq at k in
      let k'' = rw s.find_eq at k' in
      let r =
        claim_found-again hash agent_id csr_hash now w (stored s.records) file' s.records id i
          s.found d (rw s.details_eq h) k'' in
      (r.0, r.1 ∙ s.details_eq, r.2 ∙ sym s.file_eq, rw (sym s.details_eq) r.3)

  -- A token serves one agent: once a claim has returned, a later claim of the token returns only to the
  -- same agent with the same request, which has both names set, before the expiry, with the same record,
  -- and leaves the file.
  pub claim-single_use :
      (agent_id csr_hash other other_hash : String) (now later : ℕ) (w w' : Write)
      (file file' file'' : StoreFile) (id id' : String) (d d' : Details)
      → claim token_hash token agent_id csr_hash now w file ≡ (ok (id, d), file')
      → claim token_hash token other other_hash later w' file' ≡ (ok (id', d'), file'')
      → (other ≡ agent_id)
        × (other_hash ≡ csr_hash)
        × (truthy agent_id ≡ true)
        × (truthy csr_hash ≡ true)
        × (later ≤ d.expires_at)
        × (id' ≡ id)
        × (d' ≡ d)
        × (file'' ≡ file')
  claim-single_use agent_id csr_hash other other_hash now later w w' file file' file'' id id' d d' e
        k =
      let (c, s) = claim-found agent_id csr_hash now w file file' id d e in
      let (c', s') = claim-found other other_hash later w' file' file'' id' d' k in
      let r = claim-again other other_hash later w' file' file'' id' id d' d s c.taken k in
      let same = same_agent_lem d other other_hash r.3 in ground (arith, c.agent, c.csr, c'.live)
