-- ===== src/Secrets/Sealing.antt =====
-- A secret that was stored is read back.
use brazier.Base.{
  ℕ, Text, ◌==◌, ==_iff, ◌≡◌, refl, ap, false, none, some, List, [], ◌∷◌, ◌++◌, length, ltb, arith,
  if◌then◌else◌, Bool-cases, inl, inr,
}
use brazier.Secrets
use brazier.Secrets.{
  Cipher, Row, Reply, value, not_found, first_n, behind, find, put, delete_rows, encrypt, decrypt,
}

-- `Open` gives back what `Seal` took, and `DecodeString` what `EncodeToString` took.
pub record Inverts (cipher : Cipher) : Type 0 where
  pub opens :
      (nonce : List ℕ) (plain : Text)
      → length nonce ≡ cipher.nonce_size
      → cipher.open_sealed nonce (cipher.seal nonce plain) ≡ some plain
  pub decodes : (bytes : List ℕ) → cipher.decode (cipher.encode bytes) ≡ some bytes

first_n-append : (xs ys : List ℕ) → first_n (length xs) (xs ++ ys) ≡ xs
first_n-append [] ys = refl
first_n-append (x ∷ xs) ys = ap (λ zs. x ∷ zs) (first_n-append xs ys)

behind-append : (xs ys : List ℕ) → behind (length xs) (xs ++ ys) ≡ ys
behind-append [] ys = refl
behind-append (x ∷ xs) ys = behind-append xs ys

length-append_le : (xs ys : List ℕ) → ltb (length (xs ++ ys)) (length xs) ≡ false
length-append_le [] ys = ground arith
length-append_le (x ∷ xs) ys = ground (arith, length-append_le xs ys)

find-put :
    (name : Text) (r : Row) (rows : List Row)
    → find name (put r rows) ≡ (if r.name == name then some r.ciphertext else find name rows)
unfolding find put
find-put name r [] = refl
find-put name r (s ∷ rows) =
    ground
      (arith, find-put name r rows, ==_iff s.name r.name, ==_iff s.name name, ==_iff r.name name)

find-delete_rows :
    (name other : Text) (rows : List Row)
    → find other (delete_rows name rows) ≡ (if name == other then none else find other rows)
unfolding find delete_rows
find-delete_rows name other [] = ground arith
find-delete_rows name other (r ∷ rows) = ground (
  arith,
  find-delete_rows name other rows,
  ==_iff r.name name,
  ==_iff r.name other,
  ==_iff name other,
)

module _ (cipher : Cipher) (inverts : Inverts cipher) where
  decrypt-encrypt :
      (nonce : List ℕ) (plain : Text)
      → length nonce ≡ cipher.nonce_size
      → decrypt cipher (encrypt cipher nonce plain) ≡ value plain
  unfolding decrypt encrypt
  decrypt-encrypt nonce plain size =
      let sealed = cipher.seal nonce plain in
      rw (
        decrypt,
        inverts.decodes (nonce ++ sealed),
        ← size,
        length-append_le nonce sealed,
        first_n-append nonce sealed,
        behind-append nonce sealed,
        inverts.opens nonce plain size,
      )

  -- Where decryption inverts encryption and the nonce has its size, a value that `Set` stored is
  -- what `Get` returns for its name, until it is deleted, and all other names keep their values.
  pub get-set-delete :
      (nonce : List ℕ) (name plain other : Text) (rows : List Row)
      → length nonce ≡ cipher.nonce_size
      → let stored = (Secrets.set cipher false (some nonce) name plain rows).1 in
        let deleted = (Secrets.delete_secret false name stored).1 in
        (Secrets.get cipher false other stored
          ≡ (if name == other then value plain else Secrets.get cipher false other rows))
        × (Secrets.get cipher false other deleted
            ≡ (if name == other then not_found else Secrets.get cipher false other rows))
  unfolding Secrets.set Secrets.delete_secret Secrets.get
  get-set-delete nonce name plain other rows size =
      let r : Row = record { name = name; ciphertext = encrypt cipher nonce plain } in
      let back = decrypt-encrypt nonce plain size in
      elim (Bool-cases (name == other)) [
        | inl same ↦ (
          rw (find-put other r rows, same, back),
          rw (find-delete_rows name other (put r rows), same),
        )
        | inr differ ↦ (
          rw (find-put other r rows, differ),
          rw (find-delete_rows name other (put r rows), differ, find-put other r rows, differ),
        )
      ]
