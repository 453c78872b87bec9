-- ===== src/Pack/Read/Built.antt =====
-- A pack that was built by the writer, sent as `pack_data` and `pack_length` give it, and read.
use softether_android_client.Base.{
  ℕ, ◌≤◌, ◌≡◌, ◌≢◌, ◌⊎◌, inl, inr, sym, ap, ◌∙◌, some, List, [], ◌++◌, length, take, take-append,
  All,
}
use softether_android_client.Bytes.{write_u32}
use softether_android_client.Pack.Element.{Element, encode_all}
use softether_android_client.Pack.Writer.{Pack, pack_bytes}
use softether_android_client.Pack.Reader.{
  pack_get_int, pack_get_int64, pack_get_str, pack_get_data, max_elements,
}
use softether_android_client.Pack.Write.Adds.{Represents}
use softether_android_client.Pack.Read.Elements.{IsReadable}
use softether_android_client.Pack.Read.Getters.{
  first_named, pick_int, pick_int64, pick_str, pick_data, pack_get_int-encode_all,
  pack_get_int64-encode_all, pack_get_str-encode_all, pack_get_data-encode_all,
}

module _ {p : Pack} (es : List Element) (r : Represents p es) (some_element : es ≢ []) where
  -- What is sent is the count and the elements.
  pub pack_bytes-Represents : pack_bytes (some p) ≡ some (write_u32 (length es) ++ encode_all es)
  unfolding pack_bytes
  pack_bytes-Represents = ap some (
      ap (take p.len) r.allocated.contents
      ∙ take-append p.len (r.head ++ encode_all es) r.allocated.room (sym r.allocated.used_size)
      ∙ ap (λ t. t ++ encode_all es) (go r.patched))
    where
      go : (es ≡ []) ⊎ (r.head ≡ write_u32 (length es)) → r.head ≡ write_u32 (length es)
      go (inl e) = absurd (some_element e)
      go (inr e) = e

  module _ (readable : All IsReadable es) (few : length es ≤ max_elements) (field : List ℕ) where
    -- For a pack of one element or more, at most 4,096, with readable names and sizes,
    -- `pack_get_int` on what is sent gives the value of the first integer element of that name.
    pub pack_get_int-built :
        pack_get_int (pack_bytes (some p)) (some field) ≡ first_named pick_int field es
    pack_get_int-built = rw pack_bytes-Represents (pack_get_int-encode_all es field readable few)

    -- For a pack of one element or more, at most 4,096, with readable names and sizes,
    -- `pack_get_int64` on what is sent gives the value of the first element of that name and type.
    pub pack_get_int64-built :
        pack_get_int64 (pack_bytes (some p)) (some field) ≡ first_named pick_int64 field es
    pack_get_int64-built =
        rw pack_bytes-Represents (pack_get_int64-encode_all es field readable few)

    -- For a pack of one element or more, at most 4,096, with readable names and sizes,
    -- `pack_get_str` into a buffer that is not empty gives the first string of that name, as far as
    -- it fits the buffer with its NUL.
    pub pack_get_str-built :
        (out_size : ℕ)
        → out_size ≢ 0
        → pack_get_str (pack_bytes (some p)) (some field) out_size
          ≡ first_named (pick_str out_size) field es
    pack_get_str-built n h =
        rw pack_bytes-Represents (pack_get_str-encode_all es field readable few n h)

    -- For a pack of one element or more, at most 4,096, with readable names and sizes,
    -- `pack_get_data` into a buffer that is not empty gives the first binary value of that name, as
    -- far as it fits the buffer.
    pub pack_get_data-built :
        (out_size : ℕ)
        → out_size ≢ 0
        → pack_get_data (pack_bytes (some p)) (some field) out_size
          ≡ first_named (pick_data out_size) field es
    pack_get_data-built n h =
        rw pack_bytes-Represents (pack_get_data-encode_all es field readable few n h)
