-- ===== src/User/Codec/RoundTrip.antt =====
-- A user that one master serialises is the user that another reads.
use mathlib.Core.List.{append_assoc}
use sector_sphere.Base.{
  flag, ℕ, ◌^◌, ◌<◌, ◌≡◌, refl, Text, Bool, true, false, not, some, List, [], ◌∷◌, ◌++◌, length,
  All, ◌==◌, arith,
}
use sector_sphere.Base.Wire.{
  put32, get32, get_bytes, get32-put32, get_text-put_text, get_bytes_append, NoZero,
}
use sector_sphere.User.{User}
use sector_sphere.User.Codec.{
  put_field, put_fields, get_field, get_fields, serialize, deserialize, rounds,
}

-- A user that fits the buffer's format.
pub record IsWritable (u : User) : Type 0 where
  pub name_text : NoZero u.name
  pub ip_text : NoZero u.ip
  pub port_word : u.port < 2 ^ 32
  pub data_port_word : u.data_port < 2 ^ 32
  pub key_word : u.key < 2 ^ 32
  pub key_length : length u.pc_key ≡ 16
  pub iv_length : length u.pc_iv ≡ 8
  pub read_texts : All NoZero u.read_list
  pub read_count : length u.read_list < 2 ^ 31
  pub write_texts : All NoZero u.write_list
  pub write_count : length u.write_list < 2 ^ 31

get_field-put_field : (s p : List ℕ) → NoZero s → get_field (put_field s ++ p) ≡ some (s, p)
unfolding get_field put_field get_bytes put32
get_field-put_field s p h = get_text-put_text s p h

get_fields-put_fields :
    (list : List Text) (p : List ℕ)
    → All NoZero list
    → get_fields (length list) (put_fields list ++ p) ≡ some (list, p)
unfolding get_fields put_fields
get_fields-put_fields [] p h = refl
get_fields-put_fields (i ∷ list) p h =
    rw
      (
        append_assoc (put_field i) (put_fields list) p,
        get_field-put_field i (put_fields list ++ p) h.0,
        get_fields-put_fields list p h.1,
      )
      refl

rounds_small : (n : ℕ) → n < 2 ^ 31 → rounds n ≡ n
rounds_small n h = ground arith

count_word : (n : ℕ) → n < 2 ^ 31 → n < 2 ^ 32
count_word n h = omega arith

get32-flag : (b : Bool) → get32 (put32 (flag b)) ≡ some (flag b, [])
unfolding get32 put32
get32-flag true = refl
get32-flag false = refl

flag_set : (b : Bool) → not (flag b == 0) ≡ b
flag_set true = refl
flag_set false = refl

-- User::deserialize reads what User::serialize of the same file writes: every field but the time of
-- the last request, with the directories behind those that the receiving user has.
pub deserialize-serialize :
    (u user : User)
    → IsWritable u
    → deserialize (serialize u) user
      ≡ some (record u {
        last_refresh_time = user.last_refresh_time;
        read_list = user.read_list ++ u.read_list;
        write_list = user.write_list ++ u.write_list;
      })
unfolding deserialize serialize
deserialize-serialize u user w =
    rw
      (
        get_field-put_field u.name _ w.name_text,
        get_field-put_field u.ip _ w.ip_text,
        get32-put32 u.port _ w.port_word,
        get32-put32 u.data_port _ w.data_port_word,
        get32-put32 u.key _ w.key_word,
        get_bytes_append 16 u.pc_key _ w.key_length,
        get_bytes_append 8 u.pc_iv _ w.iv_length,
        get32-put32 (length u.read_list) _ (count_word (length u.read_list) w.read_count),
        rounds_small (length u.read_list) w.read_count,
        get_fields-put_fields u.read_list _ w.read_texts,
        get32-put32 (length u.write_list) _ (count_word (length u.write_list) w.write_count),
        rounds_small (length u.write_list) w.write_count,
        get_fields-put_fields u.write_list _ w.write_texts,
        get32-flag u.exec,
        flag_set u.exec,
      )
      refl
