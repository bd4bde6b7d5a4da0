-- ===== src/Programs/Ledger.antt =====
-- A runtime on which the theorems about the programs are applied: balances as a function, transfers
-- that check the balance, addresses that prefix the key.
use chainpipe.Base.{
  ℕ, ◌+◌, ◌-◌, ◌≤◌, ◌≡◌, ◌≢◌, sym, ap, Bool, false, ◌&&◌, [], ◌∷◌, if◌then◌else◌, leb, inl, inr,
  arith, Bool-cases, leb→le,
}
use chainpipe.Base.Results.{Result, ok, throws, ok-injective}
use chainpipe.Base.Encodings.{text_eq, text_eq_sound, text_eq_refl}
use chainpipe.Sdk.Platform.{PublicKey}
use chainpipe.Programs.Runtime.{Balances, Runtime, TransferLaw}
use chainpipe.Programs.Registry.Laws.{VaultLaw}

abbrev pub same_account : PublicKey → PublicKey → PublicKey → PublicKey → Bool
same_account m owner mint key = text_eq m mint && text_eq owner key

abbrev pub debited : PublicKey → PublicKey → ℕ → Balances → Balances
debited mint from amount b m owner =
    if same_account m owner mint from then b m owner - amount else b m owner

abbrev pub credited : PublicKey → PublicKey → ℕ → Balances → Balances
credited mint to amount b m owner =
    if same_account m owner mint to then b m owner + amount else b m owner

unfoldable pub ledger_transfer : PublicKey → PublicKey → PublicKey → ℕ → Balances → Result Balances
ledger_transfer mint from to amount b =
    if leb amount (b mint from)
    then ok (credited mint to amount (debited mint from amount b))
    else throws "insufficient funds"

-- The vault of the stake of an agent has the agent's key with a letter before it.
abbrev pub runtime : Runtime
runtime = record {
  transfer = ledger_transfer;
  hashv = λ parts. 9 ∷ [];
  stake_key = λ agent. 115 ∷ agent;
  node_key = λ pipeline i. 110 ∷ i ∷ pipeline;
  default_key = [];
}

different : (a b : PublicKey) → a ≢ b → text_eq a b ≡ false
different a b h = elim (Bool-cases (text_eq a b)) [
  | inl same ↦ absurd (h (text_eq_sound a b same))
  | inr other ↦ other
]

transferred :
    (mint from to : PublicKey) (amount : ℕ) (b b' : Balances)
    → ledger_transfer mint from to amount b ≡ ok b'
    → (amount ≤ b mint from) × (credited mint to amount (debited mint from amount b) ≡ b')
unfolding ledger_transfer
transferred mint from to amount b b' e = elim (Bool-cases (leb amount (b mint from))) [
  | inl enough ↦ (leb→le amount (b mint from) enough, ok-injective (ground (arith, enough, e)))
  | inr short ↦ ground (arith, short, e)
]

pub runtime-TransferLaw : TransferLaw runtime
unfolding ledger_transfer
runtime-TransferLaw = record {
  funded = λ mint from to amount b b' e. (transferred mint from to amount b b' e).0;
  carried = λ mint from to amount b h.
      (credited mint to amount (debited mint from amount b), ground (arith, h));
  taken = λ mint from to amount b b' e h.
      let (enough, same) = transferred mint from to amount b b' e in
      ground (
        arith,
        ap (λ x. x mint from) same,
        enough,
        text_eq_refl mint,
        text_eq_refl from,
        different from to h,
      );
  given = λ mint from to amount b b' e h.
      let (enough, same) = transferred mint from to amount b b' e in
      ground (
        arith,
        ap (λ x. x mint to) same,
        text_eq_refl mint,
        text_eq_refl to,
        different to from (λ q. h (sym q)),
      );
  itself = λ mint owner amount b b' e.
      let (enough, same) = transferred mint owner owner amount b b' e in
      ground (arith, ap (λ x. x mint owner) same, enough, text_eq_refl mint, text_eq_refl owner);
  others = λ mint from to amount b b' owner e h k.
      let (enough, same) = transferred mint from to amount b b' e in
      ground (arith, ap (λ x. x mint owner) same, different owner from h, different owner to k);
  other_mints = λ mint from to amount b b' m owner e h.
      let (enough, same) = transferred mint from to amount b b' e in
      ground (arith, ap (λ x. x m owner) same, different m mint h);
}

abbrev tail : PublicKey → PublicKey
tail [] = []
tail (c ∷ rest) = rest

pub runtime-VaultLaw : VaultLaw runtime
runtime-VaultLaw = record { separate = λ a b e. ap tail e }
