-- ===== src/SessionState/RedisStore/Rounds.antt =====
-- packages/session_state/session_state/redis_store.py: the loop of `_update_json_model`.
use user_delegated_auth_serv.Base.{
  ℕ, zero, suc, ◌+◌, ◌<◌, String, ◌≡◌, refl, Bool, true, false, Option, some, Result, ok, err,
  Exception, Table, arith,
}
use user_delegated_auth_serv.SessionState.Redis.{Key, Redis, Round, ModelType, Objects, Watches}
use user_delegated_auth_serv.SessionState.RedisStore.{update_json_model, next_state, end_round}

-- The database after `n` rounds of other clients, from round `i`.
abbrev pub after_rounds : {D : Type 0} → (ℕ → Round D) → ℕ → ℕ → D → D
after_rounds rounds zero i d = d
after_rounds rounds (suc n) i d =
    after_rounds rounds n (i + 1) ((rounds i).until_execute ((rounds i).until_get d))

-- A positive number is a successor.
from_suc :
    (n : ℕ) (P : ℕ → Type 0)
    → ((fuel : ℕ) → n < suc fuel → P (suc fuel))
    → (fuel : ℕ) → n < fuel
    → P fuel
from_suc n P step zero h = absurd (omega arith)
from_suc n P step (suc fuel) h = step fuel h

module _ {D V M : Type 0} (redis : Redis D) (objects : Objects V) (model : ModelType V M)
    (key : Key) (mutation : Table String V) (expected_version : Option ℕ)
    (not_found : Key → Exception) (ttl_seconds : Option ℕ) (rounds : ℕ → Round D) where
  abbrev update : ℕ → ℕ → D → Option (Result M × D)
  update =
      update_json_model redis objects model key mutation expected_version not_found ttl_seconds
        rounds

  -- What round `i` comes to when it finds the database `found`.
  abbrev pub attempt : ℕ → D → Result M
  attempt i found =
      next_state redis objects model key mutation expected_version not_found (rounds i).now
        (redis.get key found)

  abbrev ending : Option (Result M × D) → D → D → Bool → Result M → Option (Result M × D)
  ending = end_round redis objects model key mutation expected_version not_found ttl_seconds rounds

  ends_here :
      (found later : D) (b : Bool) (r : Result M)
      → b ≡ false
      → (out : Result M × D) × ((again : Option (Result M × D))
          → ending again found later b r ≡ some out)
  ends_here found later b (err e) h = ((err e, found), λ again. refl)
  ends_here found later b (ok m) h =
      ((ok m, redis.set key (model.model_dump_json m) ttl_seconds later), λ again. rw h refl)

  ends_later :
      (found later : D) (b : Bool) (r : Result M) (out : Result M × D)
      → (out' : Result M × D) × ((again : Option (Result M × D))
          → again ≡ some out
          → ending again found later b r ≡ some out')
  ends_later found later b (err e) out = ((err e, found), λ again h. refl)
  ends_later found later true (ok m) out = (out, λ again h. h)
  ends_later found later false (ok m) out =
      ((ok m, redis.set key (model.model_dump_json m) ttl_seconds later), λ again h. refl)

  -- The loop ends: if the transaction of one round is not aborted, `n` rounds after the first, then
  -- there is one outcome, which every run with more than `n` rounds has.
  pub update_json_model_returns :
      (n i : ℕ) (d : D)
      → (rounds (i + n)).is_aborted ≡ false
      → (r : Result M × D) × ((fuel : ℕ) → n < fuel → update fuel i d ≡ some r)
  unfolding update_json_model
  update_json_model_returns zero i d h =
      let found = (rounds i).until_get d in
      let same : i + 0 ≡ i = omega arith in
      let (out, ends) =
        ends_here found ((rounds i).until_execute found) _ (attempt i found) (rw same at h) in
      (out, from_suc zero (λ fuel. update fuel i d ≡ some out) (λ fuel lt. ends _))
  update_json_model_returns (suc n) i d h =
      let found = (rounds i).until_get d in
      let later = (rounds i).until_execute found in
      let shift : i + suc n ≡ (i + 1) + n = omega arith in
      let (r, runs) = update_json_model_returns n (i + 1) later (rw shift at h) in
      let (out, ends) = ends_later found later ((rounds i).is_aborted) (attempt i found) r in
      (
        out,
        from_suc (suc n) (λ fuel. update fuel i d ≡ some out)
            (λ fuel lt. ends _ (runs fuel (omega arith))),
      )

  -- A transaction was committed: round `j` found the database `found`, in which the key held what it
  -- held when the new state was written over it.
  pub record Committed (m : M) (j : ℕ) (found d' : D) : Type 0 where
    pub next : attempt j found ≡ ok m
    pub unchanged : redis.get key ((rounds j).until_execute found) ≡ redis.get key found
    pub written :
        d' ≡ redis.set key (model.model_dump_json m) ttl_seconds ((rounds j).until_execute found)

  -- What round `j` finds, `k` rounds after round `i`.
  abbrev pub found_at : ℕ → ℕ → ℕ → D → D
  found_at j k i d = (rounds j).until_get (after_rounds rounds k i d)

  -- What a finished loop did, by its outcome: it committed in some round, or it raised what some
  -- round raised and wrote nothing.
  abbrev pub Finished : ℕ → D → Result M × D → Type 0
  Finished i d (ok m, d') = (k : ℕ) × (j : ℕ) × (j ≡ i + k) × Committed m j (found_at j k i d) d'
  Finished i d (err e, d') =
      (k : ℕ) × (j : ℕ) × (j ≡ i + k)
      × (attempt j (found_at j k i d) ≡ err e)
      × (d' ≡ found_at j k i d)

  earlier :
      (i : ℕ) (d : D) (r : Result M × D)
      → Finished (i + 1) ((rounds i).until_execute ((rounds i).until_get d)) r
      → Finished i d r
  earlier i d (ok m, d') (k, j, e, c) = (suc k, j, omega arith, c)
  earlier i d (err x, d') (k, j, e, a, w) = (suc k, j, omega arith, a, w)

  round_Finished :
      (i : ℕ) (d : D) (again : Option (Result M × D)) (b : Bool) (r : Result M) (out : Result M × D)
      → (b ≡ false
          → redis.get key ((rounds i).until_execute ((rounds i).until_get d))
            ≡ redis.get key ((rounds i).until_get d))
      → attempt i ((rounds i).until_get d) ≡ r
      → ((out' : Result M × D)
          → again ≡ some out'
          → Finished (i + 1) ((rounds i).until_execute ((rounds i).until_get d)) out')
      → ending again
          ((rounds i).until_get d)
          ((rounds i).until_execute ((rounds i).until_get d))
          b
          r
        ≡ some out
      → Finished i d out
  round_Finished i d again b (err x) (ok m, d') w a ih e = cc
  round_Finished i d again b (err x) (err y, d') w a ih e = (zero, i, omega arith, cc, cc)
  round_Finished i d again true (ok m) out w a ih e = earlier i d out (ih out e)
  round_Finished i d again false (ok m) (err y, d') w a ih e = cc
  round_Finished i d again false (ok m) (ok m', d') w a ih e =
      (zero, i, omega arith, record { next = cc; unchanged = w refl; written = cc })

  -- A loop that ended, when WATCH works as documented: if it returned a state, then one of its rounds
  -- computed that state from what the key held, the key still held it when the state was written,
  -- and nothing else was written; if it raised, then one of its rounds raised that, and the loop
  -- wrote nothing.
  pub update_json_model-Finished :
      (fuel i : ℕ) (d : D) (r : Result M × D)
      → Watches redis rounds key
      → update fuel i d ≡ some r
      → Finished i d r
  unfolding update_json_model
  update_json_model-Finished zero i d r w e = cc
  update_json_model-Finished (suc fuel) i d r w e =
      let found = (rounds i).until_get d in
      let later = (rounds i).until_execute found in
      round_Finished i d _ ((rounds i).is_aborted) (attempt i found) r (w i found) refl
        (λ out. update_json_model-Finished fuel (i + 1) later out w) e
