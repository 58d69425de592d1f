-- ===== src/Server/Record/RoundTrip.antt =====
-- What `encode_record` of logdbd/src/record.rs writes, `decode_record` reads back.
use Prim.Native.Nat.{Ordering}
use lv_logdb.Prelude.{
  ℕ, ◌-◌, ◌≤◌, ◌<◌, ◌^◌, ◌≡◌, refl, sym, ap, ◌∙◌, Bool, true, [], ◌∷◌, ◌++◌, map, append_assoc,
  append-nil, length, concat, Bytes, to_le, ok, err, All, All-append_one, arith, length-append,
  length-to_le, from_le-to_le, take-append, drop-append, take-append_length, drop-append_length,
  le→ltb-false,
}
use lv_logdb.Server.Record.{
  DecodedRecord, Metadata, bytes_compare, insert, metadata_bytes, put_entry, record_fields,
  encode_record, Reader, record_magic, record_version, ◌>>=◌, read_bytes, read_int, read_str,
  read_metadata, read_record, decode_record, max_metadata_count, max_metadata_bytes,
}

pub read_int-to_le :
    (w n : ℕ) (rest : Bytes) → n < 256 ^ w → read_int w (to_le w n ++ rest) ≡ ok (n, rest)
unfolding read_int
read_int-to_le w n rest small =
    let enough =
      le→ltb-false (length (to_le w n ++ rest)) w
        (omega (arith, length-append (to_le w n) rest, length-to_le w n)) in
    let read = take-append w (to_le w n) rest (length-to_le w n) in
    let left = drop-append w (to_le w n) rest (length-to_le w n) in
    rw (enough, read, left, from_le-to_le w n small) refl

pub read_bytes-append : (s rest : Bytes) → read_bytes (length s) (s ++ rest) ≡ ok (s, rest)
unfolding read_bytes
read_bytes-append s rest =
    let enough =
      le→ltb-false (length (s ++ rest)) (length s) (omega (arith, length-append s rest)) in
    rw (enough, take-append_length s rest, drop-append_length s rest) refl

abbrev pub encoded : DecodedRecord → Bytes
encoded d = concat (
    record_fields d.namespace_id d.stream_id d.seq d.event_type d.content_type d.metadata
      d.timestamp_ns d.user_content)

-- A read that succeeds is followed by the next one.
pub then_read :
    {A B : Type 0} (m : Reader A) (f : A → Reader B) (raw rest : Bytes) (a : A)
    → m raw ≡ ok (a, rest)
    → (m >>= f) raw ≡ f a rest
then_read m f raw rest a e = ap (λ r. elim r [ ok t ↦ f t.0 t.1 | err e' ↦ err e' ]) e

-- The keys are in strictly ascending order.
abbrev pub IsAscending : Metadata → Type 0
IsAscending [] = Unit
IsAscending (e ∷ es) = All (λ f. bytes_compare f.0 e.0 ≡ Ordering.gt) es × IsAscending es

-- All entries of the second are above those of the first.
abbrev Above : Metadata → Metadata → Type 0
Above es [] = Unit
Above es (f ∷ fs) = All (λ e. bytes_compare f.0 e.0 ≡ Ordering.gt) es × Above es fs

insert-last :
    (k v : Bytes) (es : Metadata)
    → All (λ e. bytes_compare k e.0 ≡ Ordering.gt) es
    → insert k v es ≡ es ++ ((k, v) ∷ [])
unfolding insert
insert-last k v [] h = refl
insert-last k v (e ∷ es) h =
    let above = h.0 in rw (insert, above) (ap (λ t. e ∷ t) (insert-last k v es h.1))

Above-append :
    (es fs : Metadata) (e : Bytes × Bytes)
    → Above es fs
    → All (λ f. bytes_compare f.0 e.0 ≡ Ordering.gt) fs
    → Above (es ++ (e ∷ [])) fs
Above-append es [] e a h = tt
Above-append es (f ∷ fs) e a h = (All-append_one _ es e a.0 h.0, Above-append es fs e a.1 h.1)

module _ (is_utf8 : Bytes → Bool) where
  abbrev pub IsText : Bytes → Type 0
  IsText s = is_utf8 s ≡ true

  -- Valid text whose length fits its bytes in the format.
  abbrev pub IsEntry : Bytes × Bytes → Type 0
  IsEntry e = IsText e.0 × IsText e.1 × (length e.0 < 256) × (length e.1 < 256 ^ 2)

  -- The ranges of the field types, valid text, lengths that fit the format, and keys in order.
  pub record IsRecord (d : DecodedRecord) : Type 0 where
    pub namespace_in : d.namespace_id < 256 ^ 4
    pub stream_in : d.stream_id < 256 ^ 8
    pub seq_in : d.seq < 256 ^ 8
    pub timestamp_in : d.timestamp_ns < 256 ^ 8
    pub event_text : IsText d.event_type
    pub event_in : length d.event_type < 256 ^ 2
    pub content_text : IsText d.content_type
    pub content_in : length d.content_type < 256 ^ 2
    pub entries_in : All IsEntry d.metadata
    pub ascending : IsAscending d.metadata
    pub count_in : length d.metadata ≤ max_metadata_count
    pub size_in : metadata_bytes d.metadata ≤ max_metadata_bytes
    pub user_in : length d.user_content < 256 ^ 4
    pub no_shard : d.shard_id ≡ 0

  pub read_str-append :
      (s rest : Bytes) → IsText s → read_str is_utf8 (length s) (s ++ rest) ≡ ok (s, rest)
  unfolding read_str
  read_str-append s rest text =
      then_read (read_bytes (length s)) _ _ _ _ (read_bytes-append s rest) ∙ rw text refl

  read_metadata-entries :
      (es fs : Metadata) (rest : Bytes)
      → All IsEntry fs
      → Above es fs
      → IsAscending fs
      → read_metadata is_utf8 (length fs) es (concat (map put_entry fs) ++ rest)
        ≡ ok (es ++ fs, rest)
  unfolding read_metadata
  read_metadata-entries es [] rest v a s = ap (λ t. ok (t, rest)) (sym (append-nil es))
  read_metadata-entries es ((k, x) ∷ fs) rest v a s =
      let key = v.0.0 in
      let value = v.0.1 in
      let more = concat (map put_entry fs) ++ rest in
      let k_len =
        read_int-to_le 1 (length k) (k ++ (to_le 2 (length x) ++ (x ++ more)))
          (omega (arith, v.0)) in
      let v_len = read_int-to_le 2 (length x) (x ++ more) v.0.3 in
      simp append_assoc (
        then_read (read_int 1) _ _ _ _ k_len
        ∙ then_read (read_str is_utf8 (length k)) _ _ _ _
            (read_str-append k (to_le 2 (length x) ++ (x ++ more)) key)
        ∙ then_read (read_int 2) _ _ _ _ v_len
        ∙ then_read (read_str is_utf8 (length x)) _ _ _ _ (read_str-append x more value)
        ∙ ap (λ t. read_metadata is_utf8 (length fs) t more) (insert-last k x es a.0)
        ∙ read_metadata-entries (es ++ ((k, x) ∷ [])) fs rest v.1
            (Above-append es fs (k, x) a.1 s.0) s.1
        ∙ ap (λ t. ok (t, rest)) (append_assoc es ((k, x) ∷ []) fs))

  pub read_record-fields :
      (d : DecodedRecord) (rest : Bytes)
      → IsRecord d
      → read_record is_utf8 (encoded d ++ rest) ≡ ok (d, rest)
  unfolding read_record
  read_record-fields d rest v =
      let user = length d.user_content in
      let user_rest = d.user_content ++ rest in
      let size_rest = to_le 4 user ++ user_rest in
      let time_rest = to_le 8 d.timestamp_ns ++ size_rest in
      let entries = concat (map put_entry d.metadata) in
      let meta_rest = to_le 1 (length d.metadata) ++ (entries ++ time_rest) in
      let type_rest = to_le 2 (length d.content_type) ++ (d.content_type ++ meta_rest) in
      let event_rest = to_le 2 (length d.event_type) ++ (d.event_type ++ type_rest) in
      simp (append_assoc, append-nil)
        (then_read (read_int 2) _ _ _ _ (read_int-to_le 2 record_magic _ (omega arith))
          ∙ then_read (read_int 1) _ _ _ _ (read_int-to_le 1 record_version _ (omega arith))
          ∙ then_read (read_int 1) _ _ _ _ (read_int-to_le 1 0 _ (omega arith))
          ∙ then_read (read_int 4) _ _ _ _ (read_int-to_le 4 d.namespace_id _ v.namespace_in)
          ∙ then_read (read_int 8) _ _ _ _ (read_int-to_le 8 d.stream_id _ v.stream_in)
          ∙ then_read (read_int 8) _ _ _ _ (read_int-to_le 8 d.seq event_rest v.seq_in)
          ∙ then_read (read_int 2) _ _ _ _
              (read_int-to_le 2 (length d.event_type) (d.event_type ++ type_rest) v.event_in)
          ∙ then_read (read_str is_utf8 (length d.event_type)) _ _ _ _
              (read_str-append d.event_type type_rest v.event_text)
          ∙ then_read (read_int 2) _ _ _ _
              (read_int-to_le 2 (length d.content_type) (d.content_type ++ meta_rest) v.content_in)
          ∙ then_read (read_str is_utf8 (length d.content_type)) _ _ _ _
              (read_str-append d.content_type meta_rest v.content_text)
          ∙ then_read (read_int 1) _ _ _ _ (
              read_int-to_le 1 (length d.metadata) (entries ++ time_rest)
                (omega (arith, v.count_in)))
          ∙ then_read (read_metadata is_utf8 (length d.metadata) []) _ _ _ _ (
              read_metadata-entries [] d.metadata time_rest v.entries_in (Above-nil d.metadata)
                v.ascending)
          ∙ then_read (read_int 8) _ _ _ _
              (read_int-to_le 8 d.timestamp_ns size_rest v.timestamp_in)
          ∙ then_read (read_int 4) _ _ _ _ (read_int-to_le 4 user user_rest v.user_in)
          ∙ then_read (read_bytes user) _ _ _ _ (read_bytes-append d.user_content rest)
          ∙ ap (λ (n : ℕ). ok (record d { shard_id = n }, rest)) (sym v.no_shard))
    where
      Above-nil : (es : Metadata) → Above [] es
      Above-nil [] = tt
      Above-nil (e ∷ es) = (tt, Above-nil es)

  pub encode_record-encoded :
      (d : DecodedRecord)
      → IsRecord d
      → encode_record d.namespace_id d.stream_id d.seq d.event_type d.content_type d.metadata
          d.timestamp_ns d.user_content
        ≡ ok (encoded d)
  unfolding encode_record
  encode_record-encoded d v =
      let few = le→ltb-false max_metadata_count (length d.metadata) v.count_in in
      let small = le→ltb-false max_metadata_bytes (metadata_bytes d.metadata) v.size_in in
      let short = le→ltb-false (2 ^ 32 - 1) (length d.user_content) (omega (arith, v.user_in)) in
      rw (few, small, short) refl

  -- A record whose fields have the ranges of their types, whose texts are UTF-8 with lengths that fit the format,
  -- and whose metadata has at most 16 entries and 4096 bytes, its keys below 256 bytes and in
  -- order: it is encoded, and decoded to itself, whatever follows.
  pub decode_record-encode_record :
      (d : DecodedRecord) (rest : Bytes)
      → IsRecord d
      → (raw : Bytes) × (encode_record d.namespace_id d.stream_id d.seq d.event_type d.content_type
            d.metadata d.timestamp_ns d.user_content
          ≡ ok raw)
        × (decode_record is_utf8 (raw ++ rest) ≡ ok d)
  unfolding decode_record
  decode_record-encode_record d rest v = (
    encoded d,
    encode_record-encoded d v,
    ap (λ r. elim r [ ok t ↦ ok t.0 | err e ↦ err e ]) (read_record-fields d rest v),
  )
