-- ===== src/Tests/Packs.antt =====
-- PACK bodies on concrete data.
use softether_android_client.Base.{
  ℕ, ◌≤◌, ◌≡◌, ◌≢◌, arith, refl, sym, ap, ◌∙◌, some, List, [], ◌∷◌, ◌++◌, inr, inl, length,
  length-append, length-take, length-replicate, replicate, take, take-append, take-take, codes, All,
}
use softether_android_client.Bytes.{write_u32, read_u32}
use softether_android_client.Pack.Element.{Element, int, bytes}
use softether_android_client.Pack.Writer.{
  Pack, Memory, fault, grow, grow_fuel, reserve, pack_add_int, pack_add_data, pack_bytes,
}
use softether_android_client.Pack.Reader.{
  pack_get_int, pack_get_str, pack_get_data, match_element, read_uint32, get_loop, list_eq,
  c_string, skip_values, read_string, read_data,
}
use softether_android_client.Pack.Reserve.{IsMemory, Grows, Reserves, grow_lem, reserve-Reserves}
use softether_android_client.Pack.Write.Adds.{Represents, Adds}
use softether_android_client.Pack.Write.Calls.{pack_add_int-Adds, pack_add_data-Adds}
use softether_android_client.Pack.Write.Overflow.{pack_add_data-fault}
use softether_android_client.Pack.Read.Elements.{IsReadable}
use softether_android_client.Pack.Read.Built.{pack_get_int-built}
use softether_android_client.Pack.Read.Getters.{first_named, pick_int}

-- An allocator that never refuses.
abbrev generous : Memory
generous = record {
  malloc = λ n. some (replicate n 0);
  realloc = λ b n. some (take n (b ++ replicate n 0));
}

some-inj : (xs ys : List ℕ) → some xs ≡ some ys → xs ≡ ys
some-inj xs ys e = cc

generous-IsMemory : IsMemory generous
generous-IsMemory = record {
  malloc_size = λ n b e. ap length (sym (some-inj _ b e)) ∙ length-replicate {A = ℕ} n 0;
  realloc_size = λ b n c e. ap length (sym (some-inj _ c e)) ∙ grown b n;
  realloc_keeps = λ b n c e h. ap (take (length b)) (sym (some-inj _ c e)) ∙ kept b n h;
}
  where
    grown : (b : List ℕ) (n : ℕ) → length (take n (b ++ replicate n 0)) ≡ n
    grown b n = omega (
      arith,
      length-take n (b ++ replicate n 0),
      length-append b (replicate n 0),
      length-replicate {A = ℕ} n 0,
    )

    kept : (b : List ℕ) (n : ℕ) → length b ≤ n → take (length b) (take n (b ++ replicate n 0)) ≡ b
    kept b n h = take-take (length b) n (b ++ replicate n 0) h ∙ take-append (length b) b _ refl

abbrev ok_name : List ℕ
ok_name = codes "ok"

abbrev ok_element : Element
ok_element = record { name = ok_name; value = int 7 }

-- "ok" = 7, written by hand.
abbrev ok_pack : Pack
ok_pack = record {
  buf =
      0 ∷ 0 ∷ 0 ∷ 1 ∷ 0 ∷ 0 ∷ 0 ∷ 3 ∷ 111 ∷ 107 ∷ 0 ∷ 0 ∷ 0 ∷ 0 ∷ 0 ∷ 0 ∷ 0 ∷ 1 ∷ 0 ∷ 0 ∷ 0 ∷ 7 ∷ 9
      ∷ 9 ∷ [];
  len = 22;
  cap = 24;
  num_elements = 1;
}

ok_pack-Represents : Represents ok_pack (ok_element ∷ [])
unfolding write_u32
ok_pack-Represents = record {
  head = 0 ∷ 0 ∷ 0 ∷ 1 ∷ [];
  head_size = refl;
  allocated = record {
    room = 9 ∷ 9 ∷ [];
    contents = refl;
    used_size = refl;
    whole = refl;
    cap_fits = omega arith;
  };
  count = refl;
  patched = inr refl;
}

ok_element-IsReadable : All IsReadable (ok_element ∷ [])
ok_element-IsReadable = (record { short = omega arith; text = omega arith; fits = omega arith }, tt)

abbrev secret : List ℕ
secret = codes "hub"

-- Tests: the writer's bytes and the readers' values.
added_port : pack_bytes (some ok_pack) ≡ some (take 22 ok_pack.buf)
unfolding pack_bytes
added_port = refl

grow_lem_example : Grows 256 5000 (grow grow_fuel 256 5000)
grow_lem_example = grow_lem 256 5000 (omega arith) (omega arith) (omega arith)

reserve-Reserves_example :
    Reserves generous ok_pack (take 22 ok_pack.buf) 100 (reserve generous ok_pack 100)
reserve-Reserves_example =
    reserve-Reserves generous generous-IsMemory ok_pack (take 22 ok_pack.buf) 100 (record {
      room = 9 ∷ 9 ∷ [];
      contents = refl;
      used_size = refl;
      whole = refl;
      cap_fits = omega arith;
    })

pack_add_int-Adds_example :
    Adds generous ok_pack
      (ok_element ∷ [])
      (record { name = secret; value = int 9 })
      (pack_add_int generous (some ok_pack) (some secret) 9)
pack_add_int-Adds_example =
    pack_add_int-Adds generous generous-IsMemory ok_pack (ok_element ∷ []) secret ok_pack-Represents
      9 (omega arith)

pack_add_data-Adds_example :
    Adds generous ok_pack
      (ok_element ∷ [])
      (record { name = secret; value = bytes secret })
      (pack_add_data generous (some ok_pack) (some secret) (some secret) 3)
pack_add_data-Adds_example =
    pack_add_data-Adds generous generous-IsMemory ok_pack (ok_element ∷ []) secret
      ok_pack-Represents secret (omega arith)

not_empty : (ok_element ∷ []) ≢ []
not_empty e = cc

pack_get_int-built_example :
    pack_get_int (pack_bytes (some ok_pack)) (some ok_name)
    ≡ first_named pick_int ok_name (ok_element ∷ [])
pack_get_int-built_example =
    pack_get_int-built (ok_element ∷ []) ok_pack-Represents not_empty ok_element-IsReadable
      (omega arith) ok_name

-- "ip" = "1.2" as a string, cut to a buffer of 3.
abbrev ip_body : List ℕ
ip_body =
    0 ∷ 0 ∷ 0 ∷ 1 ∷ 0 ∷ 0 ∷ 0 ∷ 3 ∷ 105 ∷ 112 ∷ 0 ∷ 0 ∷ 0 ∷ 2 ∷ 0 ∷ 0 ∷ 0 ∷ 1 ∷ 0 ∷ 0 ∷ 0 ∷ 3 ∷ 49
    ∷ 46 ∷ 50 ∷ []

read_ip : pack_get_str (some ip_body) (some (codes "ip")) 3 ≡ some (codes "1.")
unfolding pack_get_str get_loop match_element read_uint32 list_eq c_string skip_values read_string
read_ip = unfold read_u32 in refl

-- The same with the type of binary data.
abbrev key_body : List ℕ
key_body =
    0 ∷ 0 ∷ 0 ∷ 1 ∷ 0 ∷ 0 ∷ 0 ∷ 3 ∷ 105 ∷ 112 ∷ 0 ∷ 0 ∷ 0 ∷ 1 ∷ 0 ∷ 0 ∷ 0 ∷ 1 ∷ 0 ∷ 0 ∷ 0 ∷ 3 ∷ 49
    ∷ 46 ∷ 50 ∷ []

read_key : pack_get_data (some key_body) (some (codes "ip")) 2 ≡ some (codes "1.")
unfolding pack_get_data read_data get_loop match_element read_uint32 list_eq c_string skip_values
read_key = unfold read_u32 in refl

-- A pack with no element, and room for 36 bytes.
abbrev empty_pack : Pack
empty_pack = record { buf = replicate 40 0; len = 4; cap = 40; num_elements = 0 }

empty_pack-Represents : Represents empty_pack []
empty_pack-Represents = record {
  head = replicate 4 0;
  head_size = refl;
  allocated = record {
    room = replicate 36 0;
    contents = refl;
    used_size = refl;
    whole = refl;
    cap_fits = omega arith;
  };
  count = refl;
  patched = inl refl;
}

-- Twenty bytes less than 2 ^ 32. Both stay shut, since the list is too long to write out.
huge : ℕ
huge = 4294967276

zeros : List ℕ
zeros = replicate huge 0

length-zeros : length zeros ≡ 4294967276
unfolding zeros
length-zeros = length-replicate {A = ℕ} huge 0 ∙ (unfold huge in refl)

abbrev long_name : List ℕ
long_name = codes "sessionkey"

pack_add_data-fault_example :
    pack_add_data generous (some empty_pack) (some long_name) (some zeros) (length zeros) ≡ fault
pack_add_data-fault_example =
    pack_add_data-fault generous empty_pack [] long_name zeros empty_pack-Represents (omega arith)
      (omega (arith, length-zeros)) (omega (arith, length-zeros)) (omega arith)
