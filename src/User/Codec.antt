-- ===== src/User/Codec.antt =====
-- User::serialize and User::deserialize of master/user.cpp: a user in the buffer that one master sends
-- to another. A reader returns `none` where the C++ would read behind the buffer.
pub mod RoundTrip
pub mod Count
use sector_sphere.Base.{
  flag, ℕ, ℤ, pos, negsuc, Map, zero, suc, ◌^◌, Text, Bool, true, false, not, Option, none, some,
  List, [], ◌∷◌, ◌++◌, length, if◌then◌else◌, ◌==◌, ltb,
}
use sector_sphere.Base.Wire.{◌>>=◌, Reader, put32, get32, put_text, get_text, get_bytes}
use sector_sphere.User.{User, UserManager}

-- A text behind its length with the zero.
unfoldable pub put_field : Text → List ℕ
put_field s = put32 (suc (length s)) ++ put_text s

unfoldable pub put_fields : List Text → List ℕ
put_fields [] = []
put_fields (i ∷ list) = put_field i ++ put_fields list

-- The buffer has 65536 bytes, which are not checked.
unfoldable pub serialize : User → List ℕ
serialize u =
    put_field u.name
    ++ (put_field u.ip
        ++ (put32 u.port
            ++ (put32 u.data_port
                ++ (put32 u.key
                    ++ (u.pc_key
                        ++ (u.pc_iv
                            ++ (put32 (length u.read_list)
                                ++ (put_fields u.read_list
                                    ++ (put32 (length u.write_list)
                                        ++ (put_fields u.write_list ++ put32 (flag u.exec)))))))))))

-- The length is passed over.
unfoldable pub get_field : Reader Text
get_field p = do (size, p) ← get_bytes 4 p; get_text p

unfoldable pub get_fields : ℕ → Reader (List Text)
get_fields zero p = some ([], p)
get_fields (suc n) p = do (i, p) ← get_field p; (list, p) ← get_fields n p; some (i ∷ list, p)

-- The rounds of a loop up to an int32_t.
abbrev pub rounds : ℕ → ℕ
rounds num = if ltb num (2 ^ 31) then num else 0

unfoldable pub deserialize : List ℕ → User → Option User
deserialize p user = do
  (name, p) ← get_field p
  (ip, p) ← get_field p
  (port, p) ← get32 p
  (data_port, p) ← get32 p
  (key, p) ← get32 p
  (pc_key, p) ← get_bytes 16 p
  (pc_iv, p) ← get_bytes 8 p
  (num, p) ← get32 p
  (reads, p) ← get_fields (rounds num) p
  (num, p) ← get32 p
  (writes, p) ← get_fields (rounds num) p
  (exec, p) ← get32 p
  some (record {
    name = name;
    ip = ip;
    port = port;
    data_port = data_port;
    key = key;
    pc_key = pc_key;
    pc_iv = pc_iv;
    last_refresh_time = user.last_refresh_time;
    read_list = user.read_list ++ reads;
    write_list = user.write_list ++ writes;
    exec = not (exec == 0);
  })

unfoldable pub buffers : Map ℕ User → List (List ℕ)
unfolding serialize
buffers [] = []
buffers ((k, u) ∷ m) = let rest = buffers m in if k == 0 then rest else serialize u ∷ rest

-- m_mActiveUsers.size() - 1 as an int
abbrev pub one_less : ℕ → ℤ
one_less zero = negsuc 0
one_less (suc n) = pos n

-- UserManager::serializeUsers: the buffers, whose lengths are the sizes, and the number.
unfoldable pub serialize_users : UserManager → List (List ℕ) × ℤ
unfolding buffers
serialize_users m = (buffers m.active_users, one_less (length m.active_users))
