-- ===== src/Slaves/Info.antt =====
-- SlaveManager::updateSlaveInfo, with SlaveNode::deserialize of common/topology.cpp: what a slave
-- reports of itself, and its status.
pub mod Reports
use sector_sphere.Base.{
  ℕ, zero, suc, ◌+◌, ◌*◌, ◌^◌, ◌<◌, ◌≤◌, ◌≡◌, refl, ℤ, pos, negsuc, Text, Map, Bool, true, false,
  Option, none, some, List, [], ◌∷◌, length, if◌then◌else◌, ltb, slt64, ◌==◌, arith, nat_key,
  text_key, Option-cases, Bool-cases, inl, inr,
}
use sector_sphere.Base.Maps.{find, put, find-put}
use sector_sphere.Base.Wire.{Reader, ◌>>=◌, get32, get64, get_text, get_bytes}
use sector_sphere.Address.{Address, addr_key}
use sector_sphere.User.Codec.{rounds}
use sector_sphere.Slaves.{SlaveNode, SlaveManager}

-- One direction of one kind of traffic: a text in 16 bytes and a number for each address.
unfoldable pub get_traffic : ℕ → Map Text ℕ → Reader (Map Text ℕ)
get_traffic zero m p = some (m, p)
get_traffic (suc n) m p = do
  (ip, rest) ← get_text p
  (field, p) ← get_bytes 16 p
  (bytes, p) ← get64 p
  get_traffic n (put ip bytes m) p

-- A report shorter than its fixed part changes nothing; `none` is a read behind the buffer.
unfoldable pub deserialize : List ℕ → SlaveNode → Option SlaveNode
unfolding get_traffic
deserialize buf sn = if ltb (length buf) 72 then some sn else (do
  (time_stamp, p) ← get64 buf
  (avail, p) ← get64 p
  (files, p) ← get64 p
  (mem, p) ← get64 p
  (cpu, p) ← get64 p
  (input, p) ← get64 p
  (output, p) ← get64 p
  (n, p) ← get32 p
  (sys_in, p) ← get_traffic (rounds n) sn.sys_ind_input p
  (n, p) ← get32 p
  (sys_out, p) ← get_traffic (rounds n) sn.sys_ind_output p
  (n, p) ← get32 p
  (cli_in, p) ← get_traffic (rounds n) sn.cli_ind_input p
  (n, p) ← get32 p
  (cli_out, p) ← get_traffic (rounds n) sn.cli_ind_output p
  some (record sn {
    time_stamp = time_stamp;
    avail_disk_space = avail;
    total_file_size = files;
    curr_mem_used = mem;
    curr_cpu_used = cpu;
    total_input_data = input;
    total_output_data = output;
    sys_ind_input = sys_in;
    sys_ind_output = sys_out;
    cli_ind_input = cli_in;
    cli_ind_output = cli_out;
  }))

-- The status of a slave by its disk space: 1 is normal, 2 a full disk.
unfoldable pub next_status : ℕ → ℕ → ℕ
next_status avail status =
    if slt64 avail 10000000000
    then if status == 1 then 2 else status
    else if status == 2
    then 1
    else status

unfoldable pub update_slave_info : ℕ → Address → List ℕ → SlaveManager → Option (SlaveManager × ℤ)
unfolding next_status
update_slave_info now addr info m = elim (find addr m.addr_list) [
  | none ↦ some (m, negsuc 0)
  | some a ↦ elim (find a m.slave_list) [
    | none ↦ some (m, negsuc 0)
    | some s ↦ elim (deserialize info s) [
      | none ↦ none
      | some s' ↦
          let t = record s' {
            last_update_time = now;
            retry_num = 0;
            status = next_status s'.avail_disk_space s'.status;
          } in
          some (record m { slave_list = put a t m.slave_list }, pos 0)
    ]
  ]
]
