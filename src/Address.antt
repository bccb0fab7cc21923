-- ===== src/Address.antt =====
-- include/sector.h, struct Address and its order AddrComp: where a node listens.
use sector_sphere.Base.{
  ℕ, ◌≡◌, ◌↔◌, Text, Key, Bool, true, false, ◌&&◌, arith, if◌then◌else◌, ◌==◌, ltb,
}
use sector_sphere.Base.Keys.{
  text_eq, text_lt, text_eq_iff, text_lt_irrefl, text_lt_trans, text_lt_total,
}

pub record Address : Type 0 where
  pub ip : Text
  pub port : ℕ

abbrev pub addr_eq : Address → Address → Bool
addr_eq a b = text_eq a.ip b.ip && (a.port == b.port)

-- AddrComp::operator()
abbrev pub addr_lt : Address → Address → Bool
addr_lt a b = if text_eq a.ip b.ip then ltb a.port b.port else text_lt a.ip b.ip

pub addr_eq_iff : (a b : Address) → (addr_eq a b ≡ true) ↔ (a ≡ b)
addr_eq_iff a b = ground (arith, text_eq_iff a.ip b.ip)

pub addr_lt_irrefl : (a : Address) → addr_lt a a ≡ false
addr_lt_irrefl a = ground (arith, text_lt_irrefl a.ip)

pub addr_lt_trans : (a b c : Address) → addr_lt a b ≡ true → addr_lt b c ≡ true → addr_lt a c ≡ true
addr_lt_trans a b c h k = ground (
  arith,
  text_eq_iff a.ip b.ip,
  text_eq_iff b.ip c.ip,
  text_eq_iff a.ip c.ip,
  text_lt_trans a.ip b.ip c.ip,
  text_lt_trans b.ip c.ip b.ip,
  text_lt_irrefl b.ip,
)

pub addr_lt_total : (a b : Address) → addr_eq a b ≡ false → addr_lt a b ≡ false → addr_lt b a ≡ true
addr_lt_total a b h k =
    ground (arith, text_eq_iff a.ip b.ip, text_eq_iff b.ip a.ip, text_lt_total a.ip b.ip)

instance abbrev pub addr_key : Key Address
addr_key = record {
  eq = addr_eq;
  lt = addr_lt;
  eq_iff = addr_eq_iff;
  lt_irrefl = addr_lt_irrefl;
  lt_trans = addr_lt_trans;
  lt_total = addr_lt_total;
}
