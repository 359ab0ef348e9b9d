-- ===== src/Workers/ServerLaws.antt =====
-- server.go: the same servers can be registered again.
use frankenphp.Base.{
  ℕ, ◌+◌, ◌≡◌, refl, sym, ◌∙◌, Bool, true, false, List, [], ◌∷◌, ◌==◌, mem, arith, Bool-cases, inl,
  inr,
}
use frankenphp.Text.{Bytes}
use frankenphp.Workers.Servers.{
  Server, Servers, reset_workers, update, identify, register_from, register_servers, set_registered,
  set_all, activate_servers, unregister_servers,
}

-- The two were made with the same options.
abbrev pub Declares : Server → Server → Type 0
Declares a b =
    (a.configured_name ≡ b.configured_name) × (a.root ≡ b.root) × (a.split_path ≡ b.split_path)

Declares-trans : (a b c : Server) → Declares a b → Declares b c → Declares a c
Declares-trans a b c (h, k, l) (h', k', l') = (h ∙ h', k ∙ k', l ∙ l')

Declares-sym : (a b : Server) → Declares a b → Declares b a
Declares-sym a b (h, k, l) = (sym h, sym k, sym l)

updated :
    (n m : ℕ) (f : Server → Server) (at : ℕ → Server) → (n == m) ≡ true → update m f at n ≡ f (at n)
updated n m f at h = ground (arith, h)

set_all-Declares :
    (b : Bool) (ns : List ℕ) (at : ℕ → Server) (n : ℕ) → Declares (set_all b ns at n) (at n)
unfolding set_all
set_all-Declares b [] at n = (refl, refl, refl)
set_all-Declares b (m ∷ ns) at n =
    Declares-trans (set_all b (m ∷ ns) at n) (update m (set_registered b) at n) (at n)
      (set_all-Declares b ns (update m (set_registered b) at) n) (ground arith)

pub set_all_outside :
    (b : Bool) (ns : List ℕ) (at : ℕ → Server) (n : ℕ)
    → (at n).is_registered ≡ b
    → (set_all b ns at n).is_registered ≡ b
unfolding set_all
set_all_outside b [] at n h = h
set_all_outside b (m ∷ ns) at n h =
    set_all_outside b ns (update m (set_registered b) at) n (ground (arith, h))

pub set_all_inside :
    (b : Bool) (ns : List ℕ) (at : ℕ → Server) (n : ℕ)
    → mem n ns ≡ true
    → (set_all b ns at n).is_registered ≡ b
unfolding set_all
set_all_inside b [] at n h = cc
set_all_inside b (m ∷ ns) at n h = elim (Bool-cases (mem n ns)) [
  | inl e ↦ set_all_inside b ns (update m (set_registered b) at) n e
  | inr e ↦ set_all_outside b ns (update m (set_registered b) at) n (ground (arith, h, e))
]

module _ (itoa : ℕ → Bytes) where
  identified-Declares :
      (i m : ℕ) (at : ℕ → Server) (n : ℕ) → Declares (update m (identify itoa i) at n) (at n)
  unfolding identify reset_workers
  identified-Declares i m at n = ground arith

  pub identified_registered :
      (i m : ℕ) (at : ℕ → Server) (n : ℕ)
      → (update m (identify itoa i) at n).is_registered ≡ (at n).is_registered
  unfolding identify reset_workers
  identified_registered i m at n = ground arith

  register_from-Declares :
      (i : ℕ) (ns : List ℕ) (at : ℕ → Server) (n : ℕ)
      → Declares (register_from itoa i ns at n) (at n)
  unfolding register_from
  register_from-Declares i [] at n = (refl, refl, refl)
  register_from-Declares i (m ∷ ns) at n =
      Declares-trans (register_from itoa i (m ∷ ns) at n) (update m (identify itoa i) at n) (at n)
        (register_from-Declares (i + 1) ns (update m (identify itoa i) at) n)
        (identified-Declares i m at n)

  register_from_outside :
      (i : ℕ) (ns : List ℕ) (at : ℕ → Server) (n : ℕ)
      → mem n ns ≡ false
      → register_from itoa i ns at n ≡ at n
  unfolding register_from
  register_from_outside i [] at n h = refl
  register_from_outside i (m ∷ ns) at n h =
      register_from_outside (i + 1) ns (update m (identify itoa i) at) n (ground (arith, h))
      ∙ ground (arith, h)

  -- The identity of a server comes from its options and its position.
  identify_eq :
      (i : ℕ) (a b : Server)
      → Declares a b
      → a.is_registered ≡ b.is_registered
      → identify itoa i a ≡ identify itoa i b
  unfolding identify reset_workers
  identify_eq i a b (h, k, l) r = rw (h, k, l, r) refl

  register_from_eq :
      (i : ℕ) (ns : List ℕ) (at at' : ℕ → Server) (n : ℕ)
      → ((m : ℕ) → Declares (at m) (at' m))
      → (at n).is_registered ≡ (at' n).is_registered
      → mem n ns ≡ true
      → register_from itoa i ns at n ≡ register_from itoa i ns at' n
  unfolding register_from
  register_from_eq i [] at at' n d r h = cc
  register_from_eq i (m ∷ ns) at at' n d r h = elim (Bool-cases (mem n ns)) [
    | inl e ↦
        register_from_eq (i + 1) ns (update m (identify itoa i) at) (update m (identify itoa i) at')
          n
          (λ k.
            Declares-trans (update m (identify itoa i) at k) (at k)
              (update m (identify itoa i) at' k) (identified-Declares i m at k)
              (Declares-trans (at k) (at' k) (update m (identify itoa i) at' k) (d k) (
                Declares-sym (update m (identify itoa i) at' k) (at' k)
                  (identified-Declares i m at' k))))
          (identified_registered i m at n ∙ r ∙ sym (identified_registered i m at' n)) e
    | inr e ↦
        let here : (n == m) ≡ true = ground (arith, h, e) in
        register_from_outside (i + 1) ns (update m (identify itoa i) at) n e
        ∙ updated n m (identify itoa i) at here
        ∙ identify_eq i (at n) (at' n) (d n) r
        ∙ sym (updated n m (identify itoa i) at' here)
        ∙ sym (register_from_outside (i + 1) ns (update m (identify itoa i) at') n e)
  ]

  -- Servers that are registered, activated with whatever workers were added to them meanwhile, and
  -- unregistered, are after the next registration what they were after the first, provided they did not accept
  -- requests before it: no worker of the first run is left.
  pub register_servers-again :
      (ns : List ℕ) (st : Servers) (with_workers : ℕ → Server) (n : ℕ)
      → ((m : ℕ) → Declares (with_workers m) ((register_servers itoa ns st).at m))
      → mem n ns ≡ true
      → (st.at n).is_registered ≡ false
      → (register_servers itoa ns (
            unregister_servers
              (activate_servers (record (register_servers itoa ns st) { at = with_workers })))).at
          n
        ≡ (register_servers itoa ns st).at n
  unfolding register_servers activate_servers unregister_servers
  register_servers-again ns st with_workers n d h r =
      register_from_eq 0 ns (set_all false ns (set_all true ns with_workers)) st.at n
        (λ m.
          Declares-trans (set_all false ns (set_all true ns with_workers) m)
            (set_all true ns with_workers m) (st.at m)
            (set_all-Declares false ns (set_all true ns with_workers) m)
            (Declares-trans (set_all true ns with_workers m) (with_workers m) (st.at m)
              (set_all-Declares true ns with_workers m)
              (Declares-trans (with_workers m) (register_from itoa 0 ns st.at m) (st.at m) (d m)
                (register_from-Declares 0 ns st.at m))))
        (set_all_inside false ns (set_all true ns with_workers) n h ∙ sym r) h
