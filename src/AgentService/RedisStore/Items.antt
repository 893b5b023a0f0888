-- ===== src/AgentService/RedisStore/Items.antt =====
-- services/agent_service/agent_service/state.py: what the Redis-backed store keeps under one key.
use user_delegated_auth_serv.Base.{
  String, ◌≡◌, ◌≢◌, refl, sym, false, Option, none, some, Result, ok, Result-cases, Bool-cases, inl,
  inr, ◌>>=◌, is_empty, if◌then◌else◌, arith,
}
use user_delegated_auth_serv.SessionState.Keys.{
  build_session_key, build_workflow_key, build_thread_key, token_key,
}
use user_delegated_auth_serv.SessionState.Keys.Injective.{
  KeyKind, build_key, build_key-eq_iff, tenant_text,
}
use user_delegated_auth_serv.SessionState.Redis.{Key, Redis, IsDatabase}
use user_delegated_auth_serv.AgentService.Store.{Identity, same_identity, same_identity_iff}
use user_delegated_auth_serv.AgentService.RedisStore.{
  JsonModel, JsonModels, RedisSettings, set, get,
}

pub data ItemKind : Type 0 where
  workflows tokens threads : ItemKind

abbrev pub kind_of : ItemKind → String → KeyKind
kind_of workflows id = KeyKind.workflow id
kind_of tokens id = KeyKind.token id
kind_of threads id = KeyKind.thread id

kind_of_inj : (a b : ItemKind) (x y : String) → kind_of a x ≡ kind_of b y → (a ≡ b) × (x ≡ y)
kind_of_inj workflows workflows x y e = ground arith
kind_of_inj tokens tokens x y e = ground arith
kind_of_inj threads threads x y e = ground arith
kind_of_inj a b x y e = ground arith

kind_ne_session : (a : ItemKind) (x : String) → KeyKind.session ≢ kind_of a x
kind_ne_session workflows x e = cc
kind_ne_session tokens x e = cc
kind_ne_session threads x e = cc

-- A tenant that no request without a tenant can be taken for.
abbrev pub IsNamedTenant : Option String → Type 0
IsNamedTenant none = Unit
IsNamedTenant (some tenant_id) = (is_empty tenant_id ≡ false) × (tenant_id ≢ "_")

-- Its texts are not empty, and its tenant is not the text that stands for none.
abbrev pub IsNamed : Identity → Type 0
IsNamed i =
    IsNamedTenant i.tenant_id
    × (is_empty i.user_id ≡ false)
    × (is_empty i.session_id ≡ false)
    × (is_empty i.item_id ≡ false)

tenant_text_inj :
    (t t' : Option String)
    → IsNamedTenant t
    → IsNamedTenant t'
    → tenant_text t ≡ tenant_text t'
    → t ≡ t'
tenant_text_inj none none h h' e = refl
tenant_text_inj none (some t') h h' e = absurd (h'.1 (sym e))
tenant_text_inj (some t) none h h' e = absurd (h.1 e)
tenant_text_inj (some t) (some t') h h' e = ground arith

abbrev pub key_at : String → ItemKind → Identity → Result Key
key_at prefix a i = build_key prefix i.tenant_id i.user_id i.session_id (kind_of a i.item_id)

pub session_key_of :
    (prefix : String) (tenant_id : Option String) (user_id session_id : String)
    → is_empty prefix ≡ false
    → IsNamedTenant tenant_id
    → is_empty user_id ≡ false
    → is_empty session_id ≡ false
    → (key : Key) × (build_session_key prefix tenant_id user_id session_id ≡ ok key)
unfolding build_session_key
session_key_of prefix none u s p t hu hs = rw (p, hu, hs) (_, refl)
session_key_of prefix (some tenant) u s p t hu hs = rw (p, t.0, hu, hs) (_, refl)

pub key_of :
    (prefix : String) (a : ItemKind) (i : Identity)
    → is_empty prefix ≡ false
    → IsNamed i
    → (key : Key) × (key_at prefix a i ≡ ok key)
unfolding build_key build_workflow_key build_thread_key token_key
key_of prefix workflows i p (t, u, s, w) =
    let (key, e) = session_key_of prefix i.tenant_id i.user_id i.session_id p t u s in
    rw (e, w) (_, refl)
key_of prefix tokens i p (t, u, s, w) =
    let (key, e) = session_key_of prefix i.tenant_id i.user_id i.session_id p t u s in
    rw e (_, refl)
key_of prefix threads i p (t, u, s, w) =
    let (key, e) = session_key_of prefix i.tenant_id i.user_id i.session_id p t u s in
    rw (e, w) (_, refl)

pub key_at_inj :
    (prefix : String) (a b : ItemKind) (i j : Identity) (key : Key)
    → IsNamed i
    → IsNamed j
    → key_at prefix a i ≡ ok key
    → key_at prefix b j ≡ ok key
    → (a ≡ b) × (i ≡ j)
key_at_inj prefix a b i j key h h' e e' =
    let (tenants, users, sessions, kinds) =
      (build_key-eq_iff prefix _ _ _ _ _ _ _ _ key key e e').0 refl in
    let (same, items) = kind_of_inj a b _ _ kinds in
    let tenants' = tenant_text_inj _ _ h.0 h'.0 tenants in (same, ground arith)

-- The pydantic model reads back what it wrote for this record.
abbrev pub IsReadBack : {M : Type 0} → JsonModel M → M → Type 0
IsReadBack model m = model.model_validate_json (model.model_dump_json m) ≡ ok m

module _ {D : Type 0} (redis : Redis D) (models : JsonModels) (settings : RedisSettings)
    (database : IsDatabase redis) where
  module _ {M : Type 0} (model : JsonModel M) (a : ItemKind) where
    abbrev pub find : Identity → D → Result (Option M)
    find i d = key_at settings.key_prefix a i >>= λ key. get redis models settings model key d

    abbrev pub save : Identity → M → D → Result D
    save i m d =
        key_at settings.key_prefix a i >>= λ key. ok (set redis models settings model key m d)

    find-save_self :
        (i : Identity) (m : M) (d : D) (key : Key)
        → IsReadBack model m
        → key_at settings.key_prefix a i ≡ ok key
        → find i (set redis models settings model key m d) ≡ ok (some m)
    unfolding get set
    find-save_self i m d key trip e =
        let (raw, stored, decodes) =
          database.get-set_self key (model.model_dump_json m) settings.ttl_seconds d in
        rw (e, stored, decodes, trip) refl

  -- Another identity, or the same of another kind, is not touched.
  find-save_other :
      {M N : Type 0} (model : JsonModel M) (other : JsonModel N) (a b : ItemKind) (i j : Identity)
      (m : M) (d : D) (key : Key)
      → IsNamed i
      → IsNamed j
      → key_at settings.key_prefix a i ≡ ok key
      → ((a ≡ b) × (i ≡ j) → ⊥)
      → find other b j (set redis models settings model key m d) ≡ find other b j d
  unfolding get set
  find-save_other model other a b i j m d key h h' e differs =
      elim (Result-cases (key_at settings.key_prefix b j)) [
        | inl (x, p) ↦ rw p refl
        | inr (key', p) ↦
            (let apart : (key ≡ key') → ⊥ =
                λ same. differs (key_at_inj settings.key_prefix a b i j key h h' e (rw same p)) in
              rw
                (
                  p,
                  database.get-set_other key key' (model.model_dump_json m) settings.ttl_seconds d
                      apart,
                )
                refl)
      ]

  -- A read after a write, of any two items.
  pub find-save :
      {M : Type 0} (model : JsonModel M) (a : ItemKind) (i j : Identity) (m : M) (d : D) (key : Key)
      → IsReadBack model m
      → IsNamed i
      → IsNamed j
      → key_at settings.key_prefix a i ≡ ok key
      → find model a j (set redis models settings model key m d)
        ≡ (if same_identity i j then ok (some m) else find model a j d)
  find-save model a i j m d key trip h h' e = elim (Bool-cases (same_identity i j)) [
    | inl same ↦
        (let alike : i ≡ j = (same_identity_iff i j).0 same in
          rw same (rw (← alike) (find-save_self model a i m d key trip e)))
    | inr apart ↦ rw apart (
        find-save_other model model a a i j m d key h h' e
          (λ both. cc ((same_identity_iff i j).1 both.1)))
  ]

  -- A write of one kind leaves the items of another kind alone.
  pub find-save_kind :
      {M N : Type 0} (model : JsonModel M) (other : JsonModel N) (a b : ItemKind) (i j : Identity)
      (m : M) (d : D) (key : Key)
      → IsNamed i
      → IsNamed j
      → key_at settings.key_prefix a i ≡ ok key
      → a ≢ b
      → find other b j (set redis models settings model key m d) ≡ find other b j d
  find-save_kind model other a b i j m d key h h' e differs =
      find-save_other model other a b i j m d key h h' e (λ both. differs both.0)

  -- Nor does the record of a session, which stands under a key with no item.
  pub find-save_session :
      {M N : Type 0} (model : JsonModel M) (other : JsonModel N) (b : ItemKind) (i j : Identity)
      (m : M) (d : D) (key : Key)
      → build_key settings.key_prefix i.tenant_id i.user_id i.session_id KeyKind.session ≡ ok key
      → find other b j (set redis models settings model key m d) ≡ find other b j d
  unfolding get set
  find-save_session model other b i j m d key e =
      elim (Result-cases (key_at settings.key_prefix b j)) [
        | inl (x, p) ↦ rw p refl
        | inr (key', p) ↦
            (let apart : (key ≡ key') → ⊥ = λ same.
                kind_ne_session b j.item_id (
                  ((build_key-eq_iff settings.key_prefix _ _ _ _ _ _ _ _ key key' e p).0 same).3) in
              rw
                (
                  p,
                  database.get-set_other key key' (model.model_dump_json m) settings.ttl_seconds d
                      apart,
                )
                refl)
      ]
