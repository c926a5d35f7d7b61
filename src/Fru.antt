-- ===== src/Fru.antt =====
-- lib/ipmi_fru.c: the inventory of a field replaceable unit. The checksum of an area, and the
-- information on a device that its reading and writing share.
pub mod Read
pub mod Slices
pub mod ReadLaws
pub mod Serving
pub mod Area
pub mod AreaLaws
pub mod Text
pub mod TextLaws
pub mod Blocs
pub mod BlocLaws
pub mod Write
pub mod WriteLaws
pub mod Storing
use ipmitool.Common.{
  u32, ℕ, ◌+◌, ◌-◌, List, [], ◌∷◌, Bool, ◌==◌, ◌||◌, get_or, length, take, total, u8,
}

-- `struct fru_info`: a uint16_t, one bit, and two uint8_t.
pub record FruInfo : Type 0 where
  pub size : ℕ
  pub access : Bool
  pub max_read_size : ℕ
  pub max_write_size : ℕ

-- The completion code and the data of a response.
pub record Rs : Type 0 where
  pub ccode : ℕ
  pub bytes : List ℕ

-- Codes C7h, C8h and CAh: too much was asked for.
abbrev pub fru_cc_rq2big : ℕ → Bool
fru_cc_rq2big code = code == 0xC7 || code == 0xC8 || code == 0xCA

abbrev pub fru_block_sz : ℕ
fru_block_sz = 8

abbrev pub fru_area_maximum_block_sz : ℕ
fru_area_maximum_block_sz = 32

-- `-` on uint32_t.
abbrev pub sub_u32 : ℕ → ℕ → ℕ
sub_u32 a b = u32 (a + 4294967296 - b)

-- The sum of all bytes but the last, negated.
unfoldable pub fru_calc_checksum : List ℕ → ℕ
fru_calc_checksum area = u8 (256 - u8 (total (take (length area - 1) area)))

unfoldable pub fru_checksum_is_valid : List ℕ → Bool
unfolding fru_calc_checksum
fru_checksum_is_valid area = get_or area (length area - 1) 0 == fru_calc_checksum area
