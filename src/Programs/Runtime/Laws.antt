-- ===== src/Programs/Runtime/Laws.antt =====
-- What follows from the documented behaviour of a transfer, and portions in basis points.
use chainpipe.Base.{
  ℕ, ◌+◌, ◌*◌, ◌/◌, ◌≤◌, ◌≡◌, ◌≢◌, inl, inr, arith, Bool-cases, ap, ◌∙◌, sym, subst,
}
use native.Mathlib.Nat.{mul-le-mul_left}
use chainpipe.Base.Results.{ok}
use chainpipe.Base.Encodings.{text_eq, text_eq_sound, text_eq_refl}
use chainpipe.Sdk.Platform.{PublicKey}
use chainpipe.Programs.Runtime.{Balances, Runtime, TransferLaw}

pub portion_bound : (amount bps : ℕ) → bps ≤ 10_000 → amount * bps / 10_000 ≤ amount
portion_bound amount bps h = omega (arith, mul-le-mul_left amount h)

module _ (rt : Runtime) (law : TransferLaw rt) where
  -- The account of an owner on neither side is left alone, for every mint.
  pub transfer_untouched :
      (mint from to : PublicKey) (amount : ℕ) (b b' : Balances) (m owner : PublicKey)
      → rt.transfer mint from to amount b ≡ ok b'
      → owner ≢ from
      → owner ≢ to
      → b' m owner ≡ b m owner
  transfer_untouched mint from to amount b b' m owner e h k = elim (Bool-cases (text_eq m mint)) [
    | inl same ↦
        let mints : m ≡ mint = text_eq_sound m mint same in
        ap (λ x. b' x owner) mints
        ∙ law.others mint from to amount b b' owner e h k
        ∙ sym (ap (λ x. b x owner) mints)
    | inr other ↦
        law.other_mints mint from to amount b b' m owner e
          (λ q. ground (arith, q, text_eq_refl mint, other))
  ]

  -- The account that receives never loses, for any mint.
  pub transfer_received :
      (mint from to : PublicKey) (amount : ℕ) (b b' : Balances) (m : PublicKey)
      → rt.transfer mint from to amount b ≡ ok b'
      → from ≢ to
      → b m to ≤ b' m to
  transfer_received mint from to amount b b' m e h = elim (Bool-cases (text_eq m mint)) [
    | inl same ↦
        let mints : m ≡ mint = text_eq_sound m mint same in
        let more = law.given mint from to amount b b' e h in
        omega (arith, more, ap (λ x. b x to) mints, ap (λ x. b' x to) mints)
    | inr other ↦ omega (
      arith,
      law.other_mints mint from to amount b b' m to e
          (λ q. ground (arith, q, text_eq_refl mint, other)),
    )
  ]

  -- A transfer costs its source at most the amount, for any mint and any receiver.
  pub transfer_costs :
      (mint from to : PublicKey) (amount : ℕ) (b b' : Balances) (m : PublicKey)
      → rt.transfer mint from to amount b ≡ ok b'
      → b m from ≤ b' m from + amount
  transfer_costs mint from to amount b b' m e = elim (Bool-cases (text_eq m mint)) [
    | inr other ↦ omega (
      arith,
      law.other_mints mint from to amount b b' m from e
          (λ q. ground (arith, q, text_eq_refl mint, other)),
    )
    | inl same ↦
        let mints : m ≡ mint = text_eq_sound m mint same in
        elim (Bool-cases (text_eq from to)) [
          | inl loop ↦
              let whole = law.itself mint from amount b b' (
                subst (λ x. rt.transfer mint from x amount b ≡ ok b')
                  (sym (text_eq_sound from to loop)) e) in
              omega (arith, whole, ap (λ x. b x from) mints, ap (λ x. b' x from) mints)
          | inr apart ↦
              let less =
                law.taken mint from to amount b b' e
                  (λ q. ground (arith, q, text_eq_refl to, apart)) in
              omega (arith, less, ap (λ x. b x from) mints, ap (λ x. b' x from) mints)
        ]
  ]

  -- Nobody but the source loses.
  pub transfer_spares :
      (mint from to : PublicKey) (amount : ℕ) (b b' : Balances) (m owner : PublicKey)
      → rt.transfer mint from to amount b ≡ ok b'
      → owner ≢ from
      → b m owner ≤ b' m owner
  transfer_spares mint from to amount b b' m owner e h = elim (Bool-cases (text_eq owner to)) [
    | inl same ↦
        let owners : owner ≡ to = text_eq_sound owner to same in
        omega (
          arith,
          transfer_received mint from to amount b b' m e (λ q. h (owners ∙ sym q)),
          ap (b m) owners,
          ap (b' m) owners,
        )
    | inr other ↦ omega (
      arith,
      transfer_untouched mint from to amount b b' m owner e h
          (λ q. ground (arith, q, text_eq_refl to, other)),
    )
  ]
