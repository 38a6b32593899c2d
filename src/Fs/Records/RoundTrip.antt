-- ===== src/Fs/Records/RoundTrip.antt =====
-- kernel/src/fs/system_domain.rs: a record decodes to what was encoded.
use alaphi_os.Base.{
  ℕ, zero, suc, ◌+◌, ◌-◌, ◌^◌, ◌≤◌, ◌<◌, ◌≡◌, ◌≢◌, ◌∙◌, sym, ap, refl, Bool, true, false, [], ◌∷◌,
  ◌++◌, ◌==◌, min, length, take, get_or, replicate, if◌then◌else◌, arith, take_left, All,
  append_assoc, length-append, length-replicate, length-take,
}
use alaphi_os.Base.Bytes.{Bytes}
use alaphi_os.Fs.Overlay.{AuthEntry, PermEntry}
use alaphi_os.Fs.Records.{
  path_max, to_le_bytes, from_le_bytes, slice, encode_auth_record, decode_auth_record, path_field,
  encode_perms_record, decode_perms_record, until_zero,
}
use alaphi_os.Fs.Records.Slices.{
  take_whole, length-to_le_bytes, length_head, slice_middle, slice_end, get_or-append, uid_slice,
}

-- The sizes of the arrays of the source.
pub record IsAuth (e : AuthEntry) : Type 0 where
  pub uid_bits : e.uid < 2 ^ 32
  pub salt_size : length e.salt ≡ 16
  pub hash_size : length e.hash ≡ 32

auth_fields :
    {status uid uid' : ℕ} {salt salt' hash hash' : Bytes}
    → uid ≡ uid'
    → salt ≡ salt'
    → hash ≡ hash'
    → ◌≡◌ {A = ℕ × AuthEntry}
        (status, record { uid = uid; salt = salt; hash = hash })
        (status, record { uid = uid'; salt = salt'; hash = hash' })
auth_fields {status = status} p q r = λ i. (status, record { uid = p i; salt = q i; hash = r i })

-- Decoding a password record gives the status and the entry that were encoded, byte for byte, for
-- a user number of 32 bits, a salt of 16 bytes and a hash of 32.
pub decode-encode_auth_record :
    (status : ℕ) (e : AuthEntry)
    → IsAuth e
    → decode_auth_record (encode_auth_record status e) ≡ (status, e)
unfolding decode_auth_record encode_auth_record
decode-encode_auth_record status e sizes =
    let uid = uid_slice e.uid (status ∷ []) (e.salt ++ e.hash) 1 refl sizes.uid_bits in
    let salt =
      slice_middle 5 16 (status ∷ to_le_bytes e.uid) e.salt e.hash (length_head status e.uid)
        (sym sizes.salt_size) in
    let hash =
      slice_end 21 32 (status ∷ (to_le_bytes e.uid ++ e.salt)) e.hash
        (omega (
          arith,
          length-append (to_le_bytes e.uid) e.salt,
          length-to_le_bytes e.uid,
          sizes.salt_size,
        ))
        (sym sizes.hash_size) in
    let apart = append_assoc (to_le_bytes e.uid) e.salt e.hash in
    let hash' : slice 21 32 (status ∷ (to_le_bytes e.uid ++ (e.salt ++ e.hash))) ≡ e.hash =
      ap (λ t. slice 21 32 (status ∷ t)) (sym apart) ∙ hash in
    auth_fields uid salt hash'

-- The values of the fields, and a path that the record can hold.
pub record IsPerm (is_utf8 : Bytes → Bool) (path : Bytes) (e : PermEntry) : Type 0 where
  pub uid_bits : e.uid < 2 ^ 32
  pub gid_bits : e.gid < 2 ^ 32
  pub short : length path ≤ path_max
  pub no_zero : All (λ b. b ≢ 0) path
  pub text : is_utf8 path ≡ true

length-path_field : (path : Bytes) → 64 ≡ length (path_field path)
unfolding path_field
length-path_field path =
    let n = min (length path) path_max in
    omega (
      arith,
      length-append (take n path) (replicate (path_max - n) 0),
      length-take n path,
      length-replicate {A = ℕ} (path_max - n) 0,
    )

until_zero-append :
    (path : Bytes) (n : ℕ) → All (λ b. b ≢ 0) path → until_zero (path ++ replicate n 0) ≡ path
unfolding until_zero
until_zero-append [] zero h = refl
until_zero-append [] (suc n) h = refl
until_zero-append (b ∷ path) n h =
    let later = until_zero-append path n h.1 in
    let nonzero : (b == 0) ≡ false = ground (arith, h.0) in rw (nonzero, later) refl

until_zero-path_field :
    (path : Bytes)
    → length path ≤ path_max
    → All (λ b. b ≢ 0) path
    → until_zero (path_field path) ≡ path
unfolding path_field
until_zero-path_field path short nz =
    rw (take_whole (min (length path) path_max) path (omega arith))
      (until_zero-append path (path_max - min (length path) path_max) nz)

perm_fields :
    {status uid uid' gid gid' o o' g g' w w' : ℕ} {path path' : Bytes}
    → uid ≡ uid'
    → gid ≡ gid'
    → path ≡ path'
    → o ≡ o'
    → g ≡ g'
    → w ≡ w'
    → ◌≡◌ {A = ℕ × Bytes × PermEntry}
        (status, path, record { uid = uid; gid = gid; owner_rwx = o; group_rwx = g; world_rwx = w })
        (
          status,
          path',
          record { uid = uid'; gid = gid'; owner_rwx = o'; group_rwx = g'; world_rwx = w' },
        )
perm_fields {status = status} p q r s t u = λ i. (
  status,
  r i,
  record { uid = p i; gid = q i; owner_rwx = s i; group_rwx = t i; world_rwx = u i },
)

text_of :
    (is_utf8 : Bytes → Bool) {raw path : Bytes}
    → raw ≡ path
    → is_utf8 path ≡ true
    → (if is_utf8 raw then raw else []) ≡ path
text_of is_utf8 e text = rw (e, text) refl

-- The record, parted before its field `b`.
parted : (status : ℕ) (a b c : Bytes) → status ∷ (a ++ (b ++ c)) ≡ (status ∷ (a ++ b)) ++ c
parted status a b c = ap (λ t. status ∷ t) (sym (append_assoc a b c))

module _ (is_utf8 : Bytes → Bool) where
  -- Decoding a permission record gives the status, the path and the entry that were encoded, for
  -- numbers of 32 bits and a path of at most 64 bytes that is text and has no zero byte.
  pub decode-encode_perms_record :
      (status : ℕ) (path : Bytes) (e : PermEntry)
      → IsPerm is_utf8 path e
      → decode_perms_record is_utf8 (encode_perms_record status path e) ≡ (status, path, e)
  unfolding decode_perms_record encode_perms_record
  decode-encode_perms_record status path e ok =
      let field = path_field path in
      let us = to_le_bytes e.uid in
      let gs = to_le_bytes e.gid in
      let bits = e.owner_rwx ∷ e.group_rwx ∷ e.world_rwx ∷ [] in
      let n = length-path_field path in
      let nu = length-to_le_bytes e.uid in
      let ng = length-to_le_bytes e.gid in
      let uid = uid_slice e.uid (status ∷ field) (gs ++ bits) 65 (omega arith) ok.uid_bits in
      let before = status ∷ (field ++ us) in
      let nb : 69 ≡ length before = omega (arith, length-append field us) in
      let gid_at = uid_slice e.gid before bits 69 nb ok.gid_bits in
      let gid =
        ap (λ t. from_le_bytes (slice 69 4 t)) (parted status field us (gs ++ bits)) ∙ gid_at in
      let whole : status ∷ (field ++ (us ++ (gs ++ bits)))
          ≡ (status ∷ (field ++ us ++ gs)) ++ bits =
        parted status field us (gs ++ bits) ∙ sym (append_assoc before gs bits) in
      let nw : 73 ≡ length (status ∷ (field ++ us ++ gs)) =
        omega (arith, length-append (field ++ us) gs, length-append field us) in
      let raw_field =
        ap until_zero (slice_middle 1 64 (status ∷ []) field (us ++ (gs ++ bits)) refl n)
        ∙ until_zero-path_field path ok.short ok.no_zero in
      let bit : (i k : ℕ)
          → i ≡ 73 + k
          → get_or (status ∷ (field ++ (us ++ (gs ++ bits)))) i 0 ≡ get_or bits k 0 =
        λ i k h.
          ap (λ t. get_or t i 0) whole
          ∙ get_or-append (status ∷ (field ++ us ++ gs)) bits i k (omega arith) in
      perm_fields uid gid (text_of is_utf8 raw_field ok.text) (bit 73 0 refl) (bit 74 1 refl)
        (bit 75 2 refl)

fields_agree :
    (start rest : Bytes) → length start ≡ path_max → path_field (start ++ rest) ≡ path_field start
unfolding path_field
fields_agree start rest size =
    let long : min (length (start ++ rest)) path_max ≡ path_max =
      omega (arith, length-append start rest) in
    let exact : min (length start) path_max ≡ path_max = omega arith in
    rw (long, exact, take_left start rest 64 (sym size), take_whole 64 start (sym size)) refl

-- Paths longer than 64 bytes that agree in the first 64 have the same permission record: the file
-- keeps the entry under the path cut off at 64 bytes.
pub encode_perms_record-long :
    (status : ℕ) (start rest : Bytes) (e : PermEntry)
    → length start ≡ path_max
    → encode_perms_record status (start ++ rest) e ≡ encode_perms_record status start e
unfolding encode_perms_record
encode_perms_record-long status start rest e size =
    ap
      (λ t.
        status
        ∷ (t
            ++ (to_le_bytes e.uid
                ++ (to_le_bytes e.gid ++ e.owner_rwx ∷ e.group_rwx ∷ e.world_rwx ∷ []))))
      (fields_agree start rest size)
