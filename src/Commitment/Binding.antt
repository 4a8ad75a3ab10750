-- ===== src/Commitment/Binding.antt =====
-- What a commitment binds: the boundary of source and nonce cannot be shifted.
use Prim.Native.Char.{Char, char, code}
use mathlib.Core.Path.{subst, ap₂}
use text.Mathlib.TextEquality.{Char-path}
use merita.Prelude.{
  ℕ, String, true, List, [], ◌∷◌, ◌++◌, ◌≡◌, ◌≢◌, ◌↔◌, refl, All, arith, eq_iff, encode,
  append_assoc, utf8_code, encode_codes, ◌<◌, codes,
}
use merita.Commitment.{preimage, commitment, test_commitment, verify_reveal}

-- No byte of the text is the separator, as in a hexadecimal nonce.
abbrev pub HasNoZero : String → Type 0
HasNoZero s = All (λ b. b ≢ 0) (encode s)

no_zero_append : (ys vs : List ℕ) → All (λ b. b ≢ 0) (ys ++ (0 ∷ vs)) → ⊥
no_zero_append [] vs h = h.0 refl
no_zero_append (y ∷ ys) vs h = no_zero_append ys vs h.1

-- The text behind the last zero of a sequence of bytes is determined by the sequence.
split_at_last_zero :
    (xs ys us vs : List ℕ)
    → All (λ b. b ≢ 0) us
    → All (λ b. b ≢ 0) vs
    → xs ++ (0 ∷ us) ≡ ys ++ (0 ∷ vs)
    → (xs ≡ ys) × (us ≡ vs)
split_at_last_zero [] [] us vs hu hv e = (refl, cc)
split_at_last_zero [] (y ∷ ys) us vs hu hv e =
    let e' : us ≡ ys ++ (0 ∷ vs) = cc in
    absurd (no_zero_append ys vs (subst (All (λ b. b ≢ 0)) e' hu))
split_at_last_zero (x ∷ xs) [] us vs hu hv e =
    let e' : vs ≡ xs ++ (0 ∷ us) = cc in
    absurd (no_zero_append xs us (subst (All (λ b. b ≢ 0)) e' hv))
split_at_last_zero (x ∷ xs) (y ∷ ys) us vs hu hv e =
    let tail : xs ++ (0 ∷ us) ≡ ys ++ (0 ∷ vs) = cc in
    let head : x ≡ y = cc in
    let rest = split_at_last_zero xs ys us vs hu hv tail in (cc (head, rest.0), rest.1)

-- The bytes of a code point determine it, whatever follows.
utf8_code-inj :
    (c d : ℕ) (r s : List ℕ)
    → c < 0x110000
    → d < 0x110000
    → utf8_code c ++ r ≡ utf8_code d ++ s
    → (c ≡ d) × (r ≡ s)
unfolding utf8_code
utf8_code-inj c d r s hc hd e = ground arith

encode_codes-inj :
    (cs ds : List ℕ)
    → All (λ c. c < 0x110000) cs
    → All (λ c. c < 0x110000) ds
    → encode_codes cs ≡ encode_codes ds
    → cs ≡ ds
unfolding encode_codes
encode_codes-inj [] [] hc hd e = refl
encode_codes-inj [] (d ∷ ds) hc hd e = unfold utf8_code in ground arith
encode_codes-inj (c ∷ cs) [] hc hd e = unfold utf8_code in ground arith
encode_codes-inj (c ∷ cs) (d ∷ ds) hc hd e =
    let step = utf8_code-inj c d (encode_codes cs) (encode_codes ds) hc.0 hd.0 e in
    cc (step.0, encode_codes-inj cs ds hc.1 hd.1 step.1)

code_bound : (c : Char) → code c < 0x110000
code_bound (char n p) = ground arith

codes_bound : (s : String) → All (λ c. c < 0x110000) (codes s)
codes_bound String.[] = tt
codes_bound (String.◌∷◌ c s) = (code_bound c, codes_bound s)

codes-inj : (s t : String) → codes s ≡ codes t → s ≡ t
codes-inj String.[] String.[] e = refl
codes-inj String.[] (String.◌∷◌ d t) e = cc
codes-inj (String.◌∷◌ c s) String.[] e = cc
codes-inj (String.◌∷◌ c s) (String.◌∷◌ d t) e =
    let same : code c ≡ code d = cc in
    let rest : codes s ≡ codes t = cc in
    ap₂ (λ (a : Char) (b : String). String.◌∷◌ a b) (Char-path c d same) (codes-inj s t rest)

-- Two texts with the same bytes are the same text.
encode-inj : (s t : String) → encode s ≡ encode t → s ≡ t
unfolding encode
encode-inj s t e =
    codes-inj s t (encode_codes-inj (codes s) (codes t) (codes_bound s) (codes_bound t) e)

-- The hashed bytes determine both the test and the nonce, if the nonces hold no zero byte: the
-- separator stops the boundary between source and nonce from being shifted.
pub preimage-inj :
    (s t m n : String) → HasNoZero m → HasNoZero n → preimage s m ≡ preimage t n → (s ≡ t) × (m ≡ n)
unfolding preimage
preimage-inj s t m n hm hn e =
    let parts = split_at_last_zero (encode s) (encode t) (encode m) (encode n) hm hn e in
    (encode-inj s t parts.0, encode-inj m n parts.1)

module _ (sha256 : List ℕ → String) where
  -- The two implementations of the commitment agree.
  commitment-eq-test_commitment :
      (s n : String)
      → test_commitment sha256 (record { source = s; nonce = n }) ≡ commitment sha256 s n
  unfolding commitment test_commitment
  commitment-eq-test_commitment s n = rw append_assoc

  -- A reveal is accepted exactly if the hash of the revealed test and nonce is the commitment.
  pub verify_reveal_iff :
      (s n c : String) → (verify_reveal sha256 s n c ≡ true) ↔ (commitment sha256 s n ≡ c)
  unfolding verify_reveal
  verify_reveal_iff s n c =
      rw (← commitment-eq-test_commitment s n)
        (eq_iff (test_commitment sha256 (record { source = s; nonce = n })) c)
