-- ===== src/Lanplus/Encrypt/RoundTrip.antt =====
-- Decryption undoes encryption, padding included.
use ipmitool.Common.{
  false, append_assoc, true, ℕ, zero, suc, ◌+◌, ◌-◌, ◌%◌, ◌≤◌, ◌<◌, ◌≡◌, refl, List, [], ◌∷◌, ◌++◌,
  some, ◌==◌, ltb-false, length, length-append, get_elem?, take, drop, take-append, drop-append,
  arith, ap, ◌∙◌, u16, sym,
}
use ipmitool.Lanplus.Crypto.{OpenSsl, crypt_aes_cbc_128, encrypt_aes_cbc_128, decrypt_aes_cbc_128}
use ipmitool.Lanplus.Encrypt.{
  pad_length, pad_from, padded_input, encrypted, decrypted, pad_good, check_pad, strip_pad,
  encrypt_payload, decrypt_payload, max_payload_size,
}

get_elem?-append_right {ℓ} :
    {A : Type ℓ} (xs ys : List A) (i : ℕ) → get_elem? (xs ++ ys) (length xs + i) ≡ get_elem? ys i
get_elem?-append_right [] ys i = let e : 0 + i ≡ i = omega arith in rw e refl
get_elem?-append_right (x ∷ xs) ys i =
    let e : suc (length xs) + i ≡ suc (length xs + i) = omega arith in
    rw e (get_elem?-append_right xs ys i)

length-pad_from : (i n : ℕ) → length (pad_from i n) ≡ n
unfolding pad_from
length-pad_from i zero = refl
length-pad_from i (suc n) = ap suc (length-pad_from (i + 1) n)

-- The pad that was written passes the test, wherever it stands.
check_pad-pad_from :
    (left i size : ℕ) (before after : List ℕ)
    → length before ≡ size + i
    → check_pad (before ++ (pad_from i left ++ after)) size i left ≡ pad_good
unfolding check_pad pad_from
check_pad-pad_from zero i size before after h = refl
check_pad-pad_from (suc left) i size before after h =
    let rest = pad_from (i + 1) left ++ after in
    let here : get_elem? (before ++ ((i + 1) ∷ rest)) (size + i) ≡ some (i + 1) =
      ap (get_elem? (before ++ ((i + 1) ∷ rest))) (omega arith)
      ∙ get_elem?-append_right before ((i + 1) ∷ rest) 0 in
    let same : (i + 1 == i + 1) ≡ true = ground arith in
    rw (here, check_pad)
      (rw (same, check_pad)
        (ap (λ (t : List ℕ). check_pad t size (i + 1) left)
            (sym (append_assoc before ((i + 1) ∷ []) rest))
          ∙ check_pad-pad_from left (i + 1) size (before ++ (i + 1) ∷ []) after
              (omega (arith, length-append before ((i + 1) ∷ [])))))

pub pad_length_lem : (n : ℕ) → ((n + pad_length n + 1) % 16 ≡ 0) × (pad_length n < 16)
unfolding pad_length
pad_length_lem n = ground arith

length-padded_input :
    (input : List ℕ) → length (padded_input input) ≡ length input + pad_length (length input) + 1
unfolding padded_input
length-padded_input input =
    let pad = pad_length (length input) in
    omega (
      arith,
      length-append input (pad_from 0 pad ++ pad ∷ []),
      length-append (pad_from 0 pad) (pad ∷ []),
      length-pad_from 0 pad,
    )

module _ (input : List ℕ) where
  last_of_padded :
      get_elem? (padded_input input) (length (padded_input input) - 1)
      ≡ some (pad_length (length input))
  last_of_padded =
      let pad = pad_length (length input) in
      let idx : length (padded_input input) - 1 ≡ length input + (length (pad_from 0 pad) + 0) =
        omega (arith, length-padded_input input, length-pad_from 0 pad) in
      rw idx (
        unfold padded_input in
        (get_elem?-append_right input (pad_from 0 pad ++ pad ∷ []) (length (pad_from 0 pad) + 0)
          ∙ get_elem?-append_right (pad_from 0 pad) (pad ∷ []) 0))

  check_padded :
      check_pad (padded_input input) (length input) 0 (pad_length (length input)) ≡ pad_good
  unfolding padded_input
  check_padded =
      check_pad-pad_from (pad_length (length input)) 0 (length input) input
        (pad_length (length input) ∷ []) (omega arith)

  take-padded_input : take (length input) (padded_input input) ≡ input
  unfolding padded_input
  take-padded_input = take-append input _

  strip_pad-padded_input :
      length input ≤ max_payload_size → strip_pad (padded_input input) ≡ decrypted input
  unfolding strip_pad
  strip_pad-padded_input h =
      let pad = pad_length (length input) in
      let kept : u16 (length (padded_input input) + 65536 - pad - 1) ≡ length input =
        omega (arith, length-padded_input input) in
      rw (last_of_padded, strip_pad)
        (rw kept (
          rw (check_padded, strip_pad)
            (ap (λ (n : ℕ). decrypted (take n (padded_input input))) kept
              ∙ ap decrypted take-padded_input)))

module _ (ssl : OpenSsl) (key iv input : List ℕ) (iv_size : length iv ≡ 16)
    (fits : length input ≤ max_payload_size) where
  aes_blocks : (length (padded_input input) % 16 ≡ 0) × ((length (padded_input input) == 0) ≡ false)
  aes_blocks =
      let size = length-padded_input input in
      let pad = pad_length_lem (length input) in (omega (arith, size, pad), ground (arith, size))

  cipher : List ℕ
  cipher = ssl.aes_encrypt iv key (padded_input input)

  encrypt_payload-aes :
      encrypt_payload ssl crypt_aes_cbc_128 key (some iv) input
      ≡ encrypted (iv ++ cipher) (u16 (16 + length cipher))
  unfolding encrypt_payload encrypt_aes_cbc_128 cipher
  encrypt_payload-aes =
      let whole : (length (padded_input input) % 16 == 0) ≡ true = ground (arith, aes_blocks.0) in
      rw (ltb-false max_payload_size (length input) fits) (rw (aes_blocks.1, whole) refl)

  take-cipher : take 16 (iv ++ cipher) ≡ iv
  take-cipher = ap (λ (n : ℕ). take n (iv ++ cipher)) (sym iv_size) ∙ take-append iv cipher

  drop-cipher : drop 16 (iv ++ cipher) ≡ cipher
  drop-cipher = ap (λ (n : ℕ). drop n (iv ++ cipher)) (sym iv_size) ∙ drop-append iv cipher

  length-cipher : length cipher ≡ length (padded_input input)
  unfolding cipher
  length-cipher = ssl.encrypt_length iv key (padded_input input) aes_blocks.0

  decrypt_aes-cipher : decrypt_aes_cbc_128 ssl iv key cipher ≡ some (padded_input input)
  unfolding decrypt_aes_cbc_128
  decrypt_aes-cipher =
      let whole : (length cipher % 16 == 0) ≡ true = ground (arith, length-cipher, aes_blocks.0) in
      let full : (length cipher == 0) ≡ false =
        ground (arith, length-cipher, length-padded_input input) in
      rw (full, whole)
        (ap some (unfold cipher in ssl.decrypt_encrypt iv key (padded_input input) aes_blocks.0))

  decrypt_payload-aes : decrypt_payload ssl crypt_aes_cbc_128 key (iv ++ cipher) ≡ decrypted input
  unfolding decrypt_payload
  decrypt_payload-aes =
      rw (take-cipher, drop-cipher)
        (rw (decrypt_aes-cipher, decrypt_payload) (strip_pad-padded_input input fits))

-- For a 16-byte initialization vector and an input of at most 65535 bytes, the payload that
-- AES-CBC encryption writes is decrypted, with the same key, to exactly the input: the
-- padding is found, passes its test and is cut off.
pub decrypt-encrypt_payload :
    (ssl : OpenSsl) (key iv input : List ℕ)
    → length iv ≡ 16
    → length input ≤ max_payload_size
    → (out : List ℕ) × (written : ℕ) × (encrypt_payload ssl crypt_aes_cbc_128 key (some iv) input
        ≡ encrypted out written)
      × (written ≡ u16 (length out))
      × (length out % 16 ≡ 0)
      × (length out ≤ length input + 32)
      × (decrypt_payload ssl crypt_aes_cbc_128 key out ≡ decrypted input)
decrypt-encrypt_payload ssl key iv input iv_size fits =
    let c = cipher ssl key iv input iv_size fits in
    let joined = length-append iv c in
    let size = length-cipher ssl key iv input iv_size fits in
    let padded = length-padded_input input in
    let pad = pad_length_lem (length input) in
    (
      iv ++ c,
      u16 (16 + length c),
      encrypt_payload-aes ssl key iv input iv_size fits,
      ap u16 (omega (arith, joined)),
      omega (arith, joined, size, padded, pad),
      omega (arith, joined, size, padded, pad),
      decrypt_payload-aes ssl key iv input iv_size fits,
    )

-- The length of what AES-CBC encryption writes: the initialization vector, the input, its pad and
-- the pad's length.
pub encrypt_payload-length :
    (ssl : OpenSsl) (key iv input : List ℕ)
    → length iv ≡ 16
    → length input ≤ max_payload_size
    → (out : List ℕ) × (written : ℕ) × (encrypt_payload ssl crypt_aes_cbc_128 key (some iv) input
        ≡ encrypted out written)
      × (length out ≡ 17 + length input + pad_length (length input))
encrypt_payload-length ssl key iv input iv_size fits =
    let c = cipher ssl key iv input iv_size fits in
    (
      iv ++ c,
      u16 (16 + length c),
      encrypt_payload-aes ssl key iv input iv_size fits,
      omega (
        arith,
        length-append iv c,
        length-cipher ssl key iv input iv_size fits,
        length-padded_input input,
      ),
    )
