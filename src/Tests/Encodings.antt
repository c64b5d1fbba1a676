-- ===== src/Tests/Encodings.antt =====
-- Runs of the base encodings and of the backup, and their theorems at concrete inputs.
use ceema.Prelude.{
  ◌≡◌, ◌<◌, ◌≤◌, ◌*◌, ◌/◌, ◌%◌, ◌⊎◌, refl, ℕ, List, [], ◌∷◌, Option, some, length, replicate, All,
  arith, ok, err, out_of_bounds, zero, suc,
}
use ceema.Types.Bytes.{IsByte}
use ceema.Encoding.Base64.{base64_encode, base64_decode, base64_decode_buffer}
use ceema.Encoding.Base64.RoundTrip.{base64_decode-base64_encode, base64_encode_bounds}
use ceema.Encoding.Base32.{base32_encode, base32_decode}
use ceema.Encoding.Base32.RoundTrip.{base32_decode-base32_encode}
use ceema.Encoding.Base32.Bounds.{count_digits, base32_decode_bounds}
use ceema.Contact.{account}
use ceema.Contact.Backup.{Hashes, IsHashes, make_backup, decrypt_backup}
use ceema.Contact.Backup.RoundTrip.{decrypt_backup-make_backup}
use ceema.Tests.Setup.{alice_id, plain_crypto}

replicate-IsByte : (n b : ℕ) → IsByte b → All IsByte (replicate n b)
replicate-IsByte zero b h = tt
replicate-IsByte (suc n) b h = (h, replicate-IsByte n b h)

-- "ABCDEF"
abbrev six_bytes : List ℕ
six_bytes = 0x41 ∷ 0x42 ∷ 0x43 ∷ 0x44 ∷ 0x45 ∷ 0x46 ∷ []

six_bytes-IsByte : All IsByte six_bytes
six_bytes-IsByte = (
  ground arith,
  (ground arith, (ground arith, (ground arith, (ground arith, (ground arith, tt))))),
)

-- "QUJDREVG"
base64_encode_run :
    base64_encode six_bytes ≡ ok (0x51 ∷ 0x55 ∷ 0x4a ∷ 0x44 ∷ 0x52 ∷ 0x45 ∷ 0x56 ∷ 0x47 ∷ [])
unfolding base64_encode
base64_encode_run = refl

-- "QQ==" stands for one byte, which the encoder does not write.
base64_decode_padded : base64_decode (0x51 ∷ 0x51 ∷ 0x3d ∷ 0x3d ∷ []) ≡ ok (0x41 ∷ [])
unfolding base64_decode
base64_decode_padded = refl

base64_decode-base64_encode_example :
    (text : List ℕ) × (base64_encode six_bytes ≡ ok text)
    × (base64_decode text ≡ ok six_bytes)
    × (base64_decode_buffer text 6 ≡ ok six_bytes)
base64_decode-base64_encode_example = base64_decode-base64_encode 1 six_bytes six_bytes-IsByte refl

base64_encode_bounds_example :
    ((0 < 6)
      × (length six_bytes % 3 ≡ 0)
      × ((text : List ℕ) × (base64_encode six_bytes ≡ ok text)
          × (base64_decode text ≡ ok six_bytes)))
    ⊎ (((length six_bytes ≡ 0) ⊎ (0 < length six_bytes % 3))
        × (base64_encode six_bytes ≡ err out_of_bounds))
base64_encode_bounds_example = base64_encode_bounds six_bytes six_bytes-IsByte

-- "IFBEG==="
base32_encode_run :
    base32_encode (0x41 ∷ 0x42 ∷ 0x43 ∷ 0x44 ∷ [])
    ≡ ok (0x49 ∷ 0x46 ∷ 0x42 ∷ 0x45 ∷ 0x47 ∷ 0x52 ∷ 0x41 ∷ 0x3d ∷ [])
unfolding base32_encode
base32_encode_run = refl

base32_decode-base32_encode_example :
    (text : List ℕ) × (base32_encode (replicate 10 0x41) ≡ ok text)
    × (base32_decode text 10 ≡ ok (some (replicate 10 0x41)))
base32_decode-base32_encode_example =
    base32_decode-base32_encode 1 (replicate 10 0x41) (replicate-IsByte 10 0x41 (omega arith)) refl

-- Eight digits for a buffer of four bytes.
base32_decode_bounds_example :
    ((4 < count_digits (replicate 8 0x41) * 5 / 8)
      × (base32_decode (replicate 8 0x41) 4 ≡ err out_of_bounds))
    ⊎ ((count_digits (replicate 8 0x41) * 5 / 8 ≤ 4)
        × ((answer : Option (List ℕ)) × (base32_decode (replicate 8 0x41) 4 ≡ ok answer)))
base32_decode_bounds_example = base32_decode_bounds (replicate 8 0x41) 4

abbrev weak_hashes : Hashes
weak_hashes = record {
  sha256 = λ m. replicate 32 (length m % 256);
  pbkdf2 = λ password salt rounds. replicate 32 0;
  stream = λ m n k. m;
}

weak-IsHashes : IsHashes weak_hashes
weak-IsHashes = record {
  sha256_length = λ m. refl;
  sha256_bytes = λ m. replicate-IsByte 32 (length m % 256) (omega arith);
  stream_length = λ m n k. refl;
  stream_bytes = λ m n k h. h;
  stream_twice = λ m n k. refl;
}

decrypt_backup-make_backup_example :
    (text : List ℕ) × (make_backup plain_crypto weak_hashes
        (replicate 8 9)
        (account plain_crypto alice_id (replicate 32 5))
        (0x70 ∷ [])
      ≡ ok text)
    × (decrypt_backup plain_crypto weak_hashes text (0x70 ∷ [])
        ≡ ok (account plain_crypto alice_id (replicate 32 5)))
decrypt_backup-make_backup_example =
    decrypt_backup-make_backup plain_crypto weak_hashes (replicate 8 9) alice_id (replicate 32 5)
      (0x70 ∷ []) weak-IsHashes (replicate-IsByte 8 9 (omega arith))
      (replicate-IsByte 8 0x41 (omega arith)) (replicate-IsByte 32 5 (omega arith)) refl refl refl
