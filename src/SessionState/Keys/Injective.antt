-- ===== src/SessionState/Keys/Injective.antt =====
-- Which identities share a key.
use mathlib.Core.List.{append_cancel_left, append_cancel_right, append_assoc, append-nil}
use mathlib.Core.Option.{some-injective}
use user_delegated_auth_serv.Base.{
  ℕ, String, ◌≡◌, ◌≢◌, refl, sym, ap, Option, none, some, List, [], ◌∷◌, ◌++◌, ◌∙◌, ◌↔◌, Result, ok,
  >>=-eq-ok, arith,
}
use user_delegated_auth_serv.SessionState.Keys.Quote.{codes, quote}
use user_delegated_auth_serv.SessionState.Keys.Quote.Laws.{NoColon, quote_inj, quote-NoColon}
use user_delegated_auth_serv.SessionState.Keys.{
  build_session_key, build_workflow_key, build_thread_key, build_session_events_key,
  build_workflow_events_key, token_key,
}

-- The tenant as the key shows it: no tenant and the tenant `_` read alike.
abbrev pub tenant_text : Option String → String
tenant_text none = "_"
tenant_text (some tenant_id) = tenant_id

-- The first colon ends a part.
split_colon :
    (a b x y : List ℕ) → NoColon a → NoColon b → a ++ (58 ∷ x) ≡ b ++ (58 ∷ y) → (a ≡ b) × (x ≡ y)
split_colon [] [] x y h k e = (refl, ground arith)
split_colon [] (d ∷ b) x y h k e = absurd (k.0 (ground arith))
split_colon (c ∷ a) [] x y h k e = absurd (h.0 (ground arith))
split_colon (c ∷ a) (d ∷ b) x y (h, hs) (k, ks) e = ground (arith, split_colon a b x y hs ks)

-- Every key of a session begins alike; `rest` is the session's part and what follows it.
abbrev key_text : String → Option String → String → List ℕ → List ℕ
key_text prefix tenant_id user_id rest =
    codes prefix
    ++ (codes ":tenant:"
        ++ (quote (codes (tenant_text tenant_id))
            ++ (codes ":user:" ++ (quote (codes user_id) ++ (codes ":session:" ++ rest)))))

pub key_text_inj :
    (p : String) (t t' : Option String) (u u' : String) (r r' : List ℕ)
    → key_text p t u r ≡ key_text p t' u' r'
    → (tenant_text t ≡ tenant_text t') × (u ≡ u') × (r ≡ r')
key_text_inj p t t' u u' r r' e =
    let after = append_cancel_left (codes ":tenant:") _ _ (append_cancel_left (codes p) _ _ e) in
    let (tenants, users) =
      split_colon (quote (codes (tenant_text t))) (quote (codes (tenant_text t'))) _ _
        (quote-NoColon (tenant_text t)) (quote-NoColon (tenant_text t')) after in
    let (same, sessions) =
      split_colon (quote (codes u)) (quote (codes u')) _ _ (quote-NoColon u) (quote-NoColon u')
        (append_cancel_left (codes "user:") _ _ users) in
    (quote_inj _ _ tenants, quote_inj _ _ same, append_cancel_left (codes "session:") _ _ sessions)

build_session_key_lem :
    (p : String) (t : Option String) (u s : String) (k : List ℕ)
    → build_session_key p t u s ≡ ok k
    → k ≡ key_text p t u (quote (codes s))
unfolding build_session_key
build_session_key_lem p none u s k e = ground arith
build_session_key_lem p (some t) u s k e = ground arith

-- What follows the session's part: nothing, or a colon and more.
abbrev suffix_text : Option (List ℕ) → List ℕ
suffix_text none = []
suffix_text (some rest) = 58 ∷ rest

split_suffix :
    (a b : List ℕ) (o o' : Option (List ℕ))
    → NoColon a
    → NoColon b
    → a ++ suffix_text o ≡ b ++ suffix_text o'
    → (a ≡ b) × (o ≡ o')
split_suffix [] [] none none h k e = (refl, refl)
split_suffix [] [] none (some y) h k e = absurd (ground arith)
split_suffix [] [] (some x) none h k e = absurd (ground arith)
split_suffix [] [] (some x) (some y) h k e = (refl, ground arith)
split_suffix [] (d ∷ b) none o' h k e = absurd (ground arith)
split_suffix [] (d ∷ b) (some x) o' h k e = absurd (k.0 (ground arith))
split_suffix (c ∷ a) [] o none h k e = absurd (ground arith)
split_suffix (c ∷ a) [] o (some y) h k e = absurd (h.0 (ground arith))
split_suffix (c ∷ a) (d ∷ b) o o' (h, hs) (k, ks) e = ground (arith, split_suffix a b o o' hs ks)

-- The keys of one session.
pub data KeyKind : Type 0 where
  session : KeyKind
  session_events : KeyKind
  workflow : String → KeyKind
  workflow_events : String → KeyKind
  thread : String → KeyKind
  token : String → KeyKind

suffix : KeyKind → Option (List ℕ)
suffix session = none
suffix session_events = some (codes "events")
suffix (workflow w) = some (codes "workflow:" ++ quote (codes w))
suffix (workflow_events w) = some (codes "workflow:" ++ (quote (codes w) ++ codes ":events"))
suffix (thread t) = some (codes "thread:" ++ quote (codes t))
suffix (token t) = some (codes "token:" ++ quote (codes t))

-- The builder for each kind of key.
unfoldable pub build_key : String → Option String → String → String → KeyKind → Result (List ℕ)
build_key p t u s session = build_session_key p t u s
build_key p t u s session_events = build_session_events_key p t u s
build_key p t u s (workflow w) = build_workflow_key p t u s w
build_key p t u s (workflow_events w) = build_workflow_events_key p t u s w
build_key p t u s (thread id) = build_thread_key p t u s id
build_key p t u s (token id) = token_key p t u s id

workflow_ne_events : (w w' : String) → quote (codes w) ≢ quote (codes w') ++ codes ":events"
workflow_ne_events w w' e =
    let apart =
      split_suffix (quote (codes w)) (quote (codes w')) none (some (codes "events"))
        (quote-NoColon w) (quote-NoColon w') (append-nil (quote (codes w)) ∙ e) in
    cc (apart.1)

-- Under one label, equal suffixes have equal rests.
label_cancel : (label : List ℕ) (a b : List ℕ) → some (label ++ a) ≡ some (label ++ b) → a ≡ b
label_cancel label a b e = append_cancel_left label a b (some-injective _ _ e)

suffix_inj : (a b : KeyKind) → suffix a ≡ suffix b → a ≡ b
unfolding suffix
suffix_inj session session e = refl
suffix_inj session_events session_events e = refl
suffix_inj (workflow w) (workflow w') e =
    ap workflow (quote_inj w w' (label_cancel (codes "workflow:") _ _ e))
suffix_inj (workflow w) (workflow_events w') e =
    absurd (workflow_ne_events w w' (label_cancel (codes "workflow:") _ _ e))
suffix_inj (workflow_events w) (workflow w') e =
    absurd (workflow_ne_events w' w (sym (label_cancel (codes "workflow:") _ _ e)))
suffix_inj (workflow_events w) (workflow_events w') e = ap workflow_events (
    quote_inj w w'
      (append_cancel_right _ _ (codes ":events") (label_cancel (codes "workflow:") _ _ e)))
suffix_inj (thread w) (thread w') e =
    ap thread (quote_inj w w' (label_cancel (codes "thread:") _ _ e))
suffix_inj (token w) (token w') e = ap token (quote_inj w w' (label_cancel (codes "token:") _ _ e))
suffix_inj a b e = ground arith

-- A key is the session's text and the suffix of its kind.
module _ (p : String) (t : Option String) (u s : String) (k : List ℕ) where
  abbrev FromSession : List ℕ → Type 0
  FromSession sub = (sk : List ℕ) × (build_session_key p t u s ≡ ok sk) × (k ≡ sk ++ sub)

  workflow_key_lem :
      (w : String)
      → build_workflow_key p t u s w ≡ ok k
      → FromSession (codes ":workflow:" ++ quote (codes w))
  unfolding build_workflow_key
  workflow_key_lem w e = let (sk, e1, e2) = >>=-eq-ok _ _ e in (sk, e1, ground arith)

  thread_key_lem :
      (w : String)
      → build_thread_key p t u s w ≡ ok k
      → FromSession (codes ":thread:" ++ quote (codes w))
  unfolding build_thread_key
  thread_key_lem w e = let (sk, e1, e2) = >>=-eq-ok _ _ e in (sk, e1, ground arith)

  token_key_lem :
      (w : String) → token_key p t u s w ≡ ok k → FromSession (codes ":token:" ++ quote (codes w))
  unfolding token_key
  token_key_lem w e = let (sk, e1, e2) = >>=-eq-ok _ _ e in (sk, e1, ground arith)

  events_key_lem : build_session_events_key p t u s ≡ ok k → FromSession (codes ":events")
  unfolding build_session_events_key
  events_key_lem e = let (sk, e1, e2) = >>=-eq-ok _ _ e in (sk, e1, ground arith)

  from_session : (sub : List ℕ) → FromSession sub → k ≡ key_text p t u (quote (codes s) ++ sub)
  from_session sub (sk, e1, e2) = rw (e2, build_session_key_lem p t u s sk e1) (simp append_assoc)

workflow_events_key_lem :
    (p : String) (t : Option String) (u s w : String) (k : List ℕ)
    → build_workflow_events_key p t u s w ≡ ok k
    → FromSession p t u s k (codes ":workflow:" ++ (quote (codes w) ++ codes ":events"))
unfolding build_workflow_events_key
workflow_events_key_lem p t u s w k e =
    let (wk, e1, e2) = >>=-eq-ok (build_workflow_key p t u s w) _ e in
    let (sk, e3, e4) = workflow_key_lem p t u s wk w e1 in
    let whole : k ≡ wk ++ codes ":events" = ground arith in
    (sk, e3, rw (whole, e4) (simp append_assoc))

build_key_lem :
    (p : String) (t : Option String) (u s : String) (kind : KeyKind) (k : List ℕ)
    → build_key p t u s kind ≡ ok k
    → k ≡ key_text p t u (quote (codes s) ++ suffix_text (suffix kind))
unfolding build_key suffix
build_key_lem p t u s session k e =
    rw (append-nil (quote (codes s))) (build_session_key_lem p t u s k e)
build_key_lem p t u s session_events k e = from_session p t u s k _ (events_key_lem p t u s k e)
build_key_lem p t u s (workflow w) k e = from_session p t u s k _ (workflow_key_lem p t u s k w e)
build_key_lem p t u s (workflow_events w) k e =
    from_session p t u s k _ (workflow_events_key_lem p t u s w k e)
build_key_lem p t u s (thread w) k e = from_session p t u s k _ (thread_key_lem p t u s k w e)
build_key_lem p t u s (token w) k e = from_session p t u s k _ (token_key_lem p t u s k w e)

-- Two keys under one prefix are equal exactly when they are of one kind, with the same ids, for one
-- session and user, whose tenants read alike.
pub build_key-eq_iff :
    (p : String) (t t' : Option String) (u u' s s' : String) (kind kind' : KeyKind) (k k' : List ℕ)
    → build_key p t u s kind ≡ ok k
    → build_key p t' u' s' kind' ≡ ok k'
    → (k ≡ k') ↔ ((tenant_text t ≡ tenant_text t') × (u ≡ u') × (s ≡ s') × (kind ≡ kind'))
build_key-eq_iff p t t' u u' s s' kind kind' k k' e e' = (
  λ same.
      let (tenants, users, rest) =
        key_text_inj p t t' u u' _ _
          (sym (build_key_lem p t u s kind k e) ∙ same ∙ build_key_lem p t' u' s' kind' k' e') in
      let (sessions, suffixes) = split_suffix _ _ _ _ (quote-NoColon s) (quote-NoColon s') rest in
      (tenants, users, quote_inj s s' sessions, suffix_inj kind kind' suffixes),
  λ h.
      cc (build_key_lem p t u s kind k e, build_key_lem p t' u' s' kind' k' e', h.0, h.1, h.2, h.3),
)
