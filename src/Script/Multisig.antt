-- ===== src/Script/Multisig.antt =====
-- Which signatures OP_CHECKMULTISIG of src/script.cpp accepts.
use montecoin.Prelude.{◌≤◌, ◌≡◌, ◌⊎◌, ◌↔◌, inl, inr, refl, true, [], ◌∷◌, length, arith, Bool-cases}
use montecoin.Script.{Bytes}
use montecoin.Script.Vm.{Env, Stack, match_sigs}

-- Each signature has a key that accepts it, and the keys stand in the order of the signatures.
unfoldable pub Matches : Env → Bytes → Stack → Stack → Type 0
Matches env code [] keys = Unit
Matches env code (sig ∷ sigs) [] = ⊥
Matches env code (sig ∷ sigs) (key ∷ keys) =
    ((env.check_sig sig key code ≡ true) × Matches env code sigs keys)
    ⊎ Matches env code (sig ∷ sigs) keys

Matches-fewer :
    (env : Env) (code sig : Bytes) (sigs keys : Stack)
    → Matches env code (sig ∷ sigs) keys
    → Matches env code sigs keys
unfolding Matches
Matches-fewer env code sig [] keys m = tt
Matches-fewer env code sig (s ∷ sigs) [] m = absurd m
Matches-fewer env code sig (s ∷ sigs) (key ∷ keys) (inl m) = inr m.1
Matches-fewer env code sig (s ∷ sigs) (key ∷ keys) (inr m) =
    inr (Matches-fewer env code sig (s ∷ sigs) keys m)

Matches-length :
    (env : Env) (code : Bytes) (sigs keys : Stack)
    → Matches env code sigs keys
    → length sigs ≤ length keys
unfolding Matches
Matches-length env code [] keys m = omega arith
Matches-length env code (s ∷ sigs) [] m = absurd m
Matches-length env code (s ∷ sigs) (key ∷ keys) (inl m) =
    omega (arith, Matches-length env code sigs keys m.1)
Matches-length env code (s ∷ sigs) (key ∷ keys) (inr m) =
    omega (arith, Matches-length env code (s ∷ sigs) keys m)

match_sigs_sound :
    (env : Env) (code : Bytes) (sigs keys : Stack)
    → match_sigs env code sigs keys ≡ true
    → Matches env code sigs keys
unfolding match_sigs Matches
match_sigs_sound env code [] keys h = tt
match_sigs_sound env code (sig ∷ sigs) [] h = cc
match_sigs_sound env code (sig ∷ sigs) (key ∷ keys) h =
    elim (Bool-cases (env.check_sig sig key code)) [
      | inl c ↦ inl (c, match_sigs_sound env code sigs keys (ground (arith, c, h)))
      | inr c ↦ inr (match_sigs_sound env code (sig ∷ sigs) keys (ground (arith, c, h)))
    ]

match_sigs_complete :
    (env : Env) (code : Bytes) (sigs keys : Stack)
    → Matches env code sigs keys
    → match_sigs env code sigs keys ≡ true
unfolding match_sigs Matches
match_sigs_complete env code [] keys m = refl
match_sigs_complete env code (sig ∷ sigs) [] m = absurd m
match_sigs_complete env code (sig ∷ sigs) (key ∷ keys) m =
    elim (Bool-cases (env.check_sig sig key code)) [
      | inl c ↦
          let m' : Matches env code sigs keys = elim m [
            | inl p ↦ p.1
            | inr p ↦ Matches-fewer env code sig sigs keys p
          ] in
          let l = Matches-length env code sigs keys m' in
          let ih = match_sigs_complete env code sigs keys m' in ground (arith, c, l, ih)
      | inr c ↦
          let m' : Matches env code (sig ∷ sigs) keys = elim m [
            | inl p ↦ absurd (ground (arith, p.0, c))
            | inr p ↦ p
          ] in
          let l = Matches-length env code (sig ∷ sigs) keys m' in
          let ih = match_sigs_complete env code (sig ∷ sigs) keys m' in ground (arith, c, l, ih)
    ]

-- The loop over signatures and keys, which takes each key once and stops early when keys run short,
-- succeeds exactly if the signatures can be given keys that accept them, in the same order.
pub match_sigs_lem :
    (env : Env) (code : Bytes) (sigs keys : Stack)
    → (match_sigs env code sigs keys ≡ true) ↔ Matches env code sigs keys
match_sigs_lem env code sigs keys =
    (match_sigs_sound env code sigs keys, match_sigs_complete env code sigs keys)
