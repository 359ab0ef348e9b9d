-- ===== src/Caddy/SharedServers.antt =====
-- caddy/app.go: one more module, with a server of its own or one that is shared.
use frankenphp.Base.{
  ℕ, ◌+◌, ◌<◌, ◌≡◌, ◌≢◌, sym, ap, ◌∙◌, ◌↔◌, Bool, not, ◌&&◌, List, [], ◌∷◌, ◌++◌, map, none, some,
  if◌then◌else◌, ◌==◌, arith, inl, inr, Bool-cases, All,
}
use frankenphp.Text.{Bytes}
use frankenphp.Caddy.Distinct.{All-snoc, map-snoc}
use frankenphp.Caddy.Collect.{FrankenPhpModule, InitOption, server_at, Collected, with_module}

-- Two modules have one server exactly where they have one index, which is not 0.
abbrev pub ShareRightly : FrankenPhpModule × ℕ → FrankenPhpModule × ℕ → Type 0
ShareRightly (m, s) (n, t) = (s ≡ t) ↔ ((m.server_index ≡ n.server_index) × (m.server_index ≢ 0))

-- Each pair of modules, with their servers.
abbrev pub AllShare : List (FrankenPhpModule × ℕ) → Type 0
AllShare [] = Unit
AllShare (p ∷ ps) = All (ShareRightly p) ps × AllShare ps

-- The modules so far, with what the servers by index say of one.
abbrev pub IsKnown : Collected → FrankenPhpModule × ℕ → Type 0
IsKnown c (m, s) =
    (s < c.made)
    × ((m.server_index ≢ 0 → server_at m.server_index c.servers_by_index ≡ some s)
        × ((i : ℕ) → server_at i c.servers_by_index ≡ some s → i ≡ m.server_index))

pub share-snoc :
    (ps : List (FrankenPhpModule × ℕ)) (p : FrankenPhpModule × ℕ)
    → AllShare ps
    → All (λ q. ShareRightly q p) ps
    → AllShare (ps ++ p ∷ [])
share-snoc [] p h k = (tt, tt)
share-snoc (q ∷ qs) p (h, hs) (k, ks) = (All-snoc (ShareRightly q) qs p h k, share-snoc qs p hs ks)

pub All-imp {ℓ κ η} :
    {A : Type ℓ} (P : A → Type κ) (Q : A → Type η) (as_ : List A)
    → ((a : A) → P a → Q a)
    → All P as_
    → All Q as_
All-imp P Q [] f h = tt
All-imp P Q (a ∷ as_) f (h, hs) = (f a h, All-imp P Q as_ f hs)

-- The modules done, in order, and the state behind them.
pub record IsShared (ms : List FrankenPhpModule) (c : Collected) : Type 0 where
  pub pairs : List (FrankenPhpModule × ℕ)
  pub modules : map (λ p. p.0) pairs ≡ ms
  pub servers : map (λ p. p.1) pairs ≡ c.module_servers
  pub known : All (IsKnown c) pairs
  pub fresh : (i t : ℕ) → server_at i c.servers_by_index ≡ some t → t < c.made
  pub single :
      (i j t : ℕ)
      → server_at i c.servers_by_index ≡ some t
      → server_at j c.servers_by_index ≡ some t
      → i ≡ j
  pub nonzero : (t : ℕ) → server_at 0 c.servers_by_index ≢ some t
  pub share : AllShare pairs

-- The table with one more server.
abbrev pub is_index : FrankenPhpModule → ℕ → Bool
is_index m i = not (m.server_index == 0) && (m.server_index == i)

pub server_at_with :
    (m : FrankenPhpModule) (more : List InitOption × List Bytes) (c : Collected) (i : ℕ)
    → server_at i (with_module m more c).servers_by_index
      ≡ (if is_index m i then some c.made else server_at i c.servers_by_index)
server_at_with m (more, used) c i = ground arith

-- One more server, for a module whose index has none.
pub IsKnown-before :
    (m : FrankenPhpModule) (more : List InitOption × List Bytes) (c : Collected)
    → (m.server_index ≢ 0 → server_at m.server_index c.servers_by_index ≡ none)
    → (p : FrankenPhpModule × ℕ) → IsKnown c p
    → IsKnown (with_module m more c) p
IsKnown-before m more c n (q, s) (l, (a, b)) = (omega (arith, l), (there, unique))
  where
    there :
        q.server_index ≢ 0
        → server_at q.server_index (with_module m more c).servers_by_index ≡ some s
    there z = elim (Bool-cases (is_index m q.server_index)) [
      | inl e ↦
          let same : m.server_index ≡ q.server_index = ground (arith, e) in
          absurd (ground (arith, a z, n (λ k. z (sym same ∙ k)), same))
      | inr e ↦ ground (arith, server_at_with m more c q.server_index, e, a z)
    ]

    unique :
        (i : ℕ) → server_at i (with_module m more c).servers_by_index ≡ some s → i ≡ q.server_index
    unique i k = elim (Bool-cases (is_index m i)) [
      | inl e ↦ absurd (ground (arith, server_at_with m more c i, e, k, l))
      | inr e ↦ b i (ground (arith, server_at_with m more c i, e, k))
    ]

pub with_module-IsShared :
    (ms : List FrankenPhpModule) (m : FrankenPhpModule) (more : List InitOption × List Bytes)
    (c : Collected)
    → (m.server_index ≢ 0 → server_at m.server_index c.servers_by_index ≡ none)
    → IsShared ms c
    → IsShared (ms ++ m ∷ []) (with_module m more c)
with_module-IsShared ms m more c n v = record {
  pairs = v.pairs ++ (m, c.made) ∷ [];
  modules = map-snoc (λ p. p.0) v.pairs (m, c.made) ∙ ap (λ l. l ++ m ∷ []) v.modules;
  servers = map-snoc (λ p. p.1) v.pairs (m, c.made) ∙ ap (λ l. l ++ c.made ∷ []) v.servers;
  known =
      All-snoc (IsKnown (with_module m more c)) v.pairs (m, c.made)
        (All-imp (IsKnown c) (IsKnown (with_module m more c)) v.pairs (IsKnown-before m more c n)
          v.known)
        (omega arith, (here, only));
  fresh = below;
  single = one;
  nonzero = λ t e. v.nonzero t (ground (arith, server_at_with m more c 0, e));
  share = share-snoc v.pairs (m, c.made) v.share (All-imp (IsKnown c) _ v.pairs apart v.known);
}
  where
    here :
        m.server_index ≢ 0
        → server_at m.server_index (with_module m more c).servers_by_index ≡ some c.made
    here z = ground (arith, server_at_with m more c m.server_index, z)

    only :
        (i : ℕ)
        → server_at i (with_module m more c).servers_by_index ≡ some c.made
        → i ≡ m.server_index
    only i e = elim (Bool-cases (is_index m i)) [
      | inl k ↦ ground (arith, k)
      | inr k ↦
          absurd (omega (arith, v.fresh i c.made (ground (arith, server_at_with m more c i, k, e))))
    ]

    below :
        (i t : ℕ) → server_at i (with_module m more c).servers_by_index ≡ some t → t < c.made + 1
    below i t e = elim (Bool-cases (is_index m i)) [
      | inl k ↦ ground (arith, server_at_with m more c i, k, e)
      | inr k ↦ omega (arith, v.fresh i t (ground (arith, server_at_with m more c i, k, e)))
    ]

    one :
        (i j t : ℕ)
        → server_at i (with_module m more c).servers_by_index ≡ some t
        → server_at j (with_module m more c).servers_by_index ≡ some t
        → i ≡ j
    one i j t d e = elim (Bool-cases (is_index m i)) [
      | inl k ↦
          let top : t ≡ c.made = ground (arith, server_at_with m more c i, k, d) in
          ground (arith, k) ∙ sym (only j (ground (arith, e, top)))
      | inr k ↦ elim (Bool-cases (is_index m j)) [
        | inl l ↦
            let top : t ≡ c.made = ground (arith, server_at_with m more c j, l, e) in
            only i (ground (arith, d, top)) ∙ sym (ground (arith, l))
        | inr l ↦
            v.single i j t (ground (arith, server_at_with m more c i, k, d))
              (ground (arith, server_at_with m more c j, l, e))
      ]
    ]

    apart : (p : FrankenPhpModule × ℕ) → IsKnown c p → ShareRightly p (m, c.made)
    apart (q, s) (l, (a, b)) = (
      λ e. absurd (omega (arith, e, l)),
      λ (e, z). absurd (ground (arith, a z, n (λ k. z (e ∙ k)), e)),
    )

pub sharing-IsShared :
    (ms : List FrankenPhpModule) (m : FrankenPhpModule) (server : ℕ) (c : Collected)
    → m.server_index ≢ 0
    → server_at m.server_index c.servers_by_index ≡ some server
    → IsShared ms c
    → IsShared (ms ++ m ∷ []) (record c { module_servers = c.module_servers ++ server ∷ [] })
sharing-IsShared ms m server c z e v = record {
  pairs = v.pairs ++ (m, server) ∷ [];
  modules = map-snoc (λ p. p.0) v.pairs (m, server) ∙ ap (λ l. l ++ m ∷ []) v.modules;
  servers = map-snoc (λ p. p.1) v.pairs (m, server) ∙ ap (λ l. l ++ server ∷ []) v.servers;
  known =
      All-snoc (IsKnown c) v.pairs (m, server) v.known
        (v.fresh m.server_index server e, (λ z. e, λ i k. v.single i m.server_index server k e));
  fresh = v.fresh;
  single = v.single;
  nonzero = v.nonzero;
  share = share-snoc v.pairs (m, server) v.share (All-imp (IsKnown c) _ v.pairs right v.known);
}
  where
    right : (p : FrankenPhpModule × ℕ) → IsKnown c p → ShareRightly p (m, server)
    right (q, s) (l, (a, b)) = (
      λ k.
          let same : m.server_index ≡ q.server_index = b m.server_index (ground (arith, e, k)) in
          (sym same, λ y. z (same ∙ y)),
      λ (k, y). ground (arith, a y, k, e),
    )
