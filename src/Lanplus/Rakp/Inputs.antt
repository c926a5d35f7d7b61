-- ===== src/Lanplus/Rakp/Inputs.antt =====
-- src/plugins/lanplus/lanplus_crypt.c: what the hashed bytes say of a handshake.
use ipmitool.Common.{
  ℕ, ◌+◌, ◌*◌, ◌≤◌, ◌<◌, ◌≡◌, refl, sym, List, ◌++◌, length, take, take_long, take_middle,
  drop_middle, drop, get_or, u8, arith, ap, ◌∙◌,
}
use ipmitool.Lanplus.Session.{le32}
use ipmitool.Lanplus.Rakp.{Handshake, hashed_role, rakp2_input}

-- The sizes of the arrays and numbers of a session.
pub record Sized (h : Handshake) : Type 0 where
  pub console_lt : h.console_id < 4294967296
  pub bmc_lt : h.bmc_id < 4294967296
  pub console_rand_16 : length h.console_rand ≡ 16
  pub bmc_rand_16 : length h.bmc_rand ≡ 16
  pub guid_16 : length h.bmc_guid ≡ 16
  pub name_16 : length h.username ≤ 16

-- Two lists that begin with parts of one length agree on the parts and on what follows.
append_inj :
    (n : ℕ) (xs ys xs' ys' : List ℕ)
    → length xs ≡ n
    → length xs' ≡ n
    → xs ++ ys ≡ xs' ++ ys'
    → (xs ≡ xs') × (ys ≡ ys')
append_inj n xs ys xs' ys' h h' e = (
  sym (take_middle n xs ys h) ∙ ap (take n) e ∙ take_middle n xs' ys' h',
  sym (drop_middle n xs ys h) ∙ ap (drop n) e ∙ drop_middle n xs' ys' h',
)

read_le32 : List ℕ → ℕ
read_le32 bytes =
    get_or bytes 0 0
    + get_or bytes 1 0 * 256
    + get_or bytes 2 0 * 65536
    + get_or bytes 3 0 * 16777216

read-le32 : (x : ℕ) → x < 4294967296 → read_le32 (le32 x) ≡ x
unfolding read_le32
read-le32 x h = omega arith

le32_inj : (x y : ℕ) → x < 4294967296 → y < 4294967296 → le32 x ≡ le32 y → x ≡ y
le32_inj x y h h' e = sym (read-le32 x h) ∙ ap read_le32 e ∙ read-le32 y h'

name_is : (h : Handshake) → Sized h → take (u8 (length h.username)) h.username ≡ h.username
name_is h s = take_long (u8 (length h.username)) h.username (omega (arith, s.name_16))

-- Two sessions with arrays of their declared sizes that hash the same bytes for RAKP 2 agree on
-- both session ids, both random numbers, the BMC's GUID, the role that is hashed and the user
-- name: no two handshakes are confused by the way that the fields are put together.
pub rakp2_input-injective :
    (h g : Handshake)
    → Sized h
    → Sized g
    → rakp2_input h ≡ rakp2_input g
    → (h.console_id ≡ g.console_id)
      × (h.bmc_id ≡ g.bmc_id)
      × (h.console_rand ≡ g.console_rand)
      × (h.bmc_rand ≡ g.bmc_rand)
      × (h.bmc_guid ≡ g.bmc_guid)
      × (hashed_role h ≡ hashed_role g)
      × (h.username ≡ g.username)
unfolding rakp2_input
rakp2_input-injective h g s t e =
    let a = append_inj 4 (le32 h.console_id) _ (le32 g.console_id) _ refl refl e in
    let b = append_inj 4 (le32 h.bmc_id) _ (le32 g.bmc_id) _ refl refl a.1 in
    let c =
      append_inj 16 h.console_rand _ g.console_rand _ s.console_rand_16 t.console_rand_16 b.1 in
    let d = append_inj 16 h.bmc_rand _ g.bmc_rand _ s.bmc_rand_16 t.bmc_rand_16 c.1 in
    let f = append_inj 16 h.bmc_guid _ g.bmc_guid _ s.guid_16 t.guid_16 d.1 in
    (
      le32_inj h.console_id g.console_id s.console_lt t.console_lt a.0,
      le32_inj h.bmc_id g.bmc_id s.bmc_lt t.bmc_lt b.0,
      c.0,
      d.0,
      f.0,
      ap (λ (x : List ℕ). get_or x 0 0) f.1,
      sym (name_is h s) ∙ ap (drop 2) f.1 ∙ name_is g t,
    )
