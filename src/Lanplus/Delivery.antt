-- ===== src/Lanplus/Delivery.antt =====
-- A packet of one end of an RMCP+ session (`ipmi_lanplus_build_v2x_msg`) at the other end
-- (`ipmi_lan_poll_single`).
use ipmitool.Common.{ℕ, ◌≡◌, refl, List, [], ◌++◌, Bool, length, take, drop, take_middle}
use ipmitool.Lanplus.Crypto.{OpenSsl}
use ipmitool.Lanplus.Encrypt.{Decrypted, decrypted}
use ipmitool.Lanplus.Session.{Session}
use ipmitool.Lanplus.Packet.{rmcp_hdr, session_header, integrity_trailer}
use ipmitool.Lanplus.PacketLaws.{Mirrors, session_header_lem}

abbrev plain_bytes : Decrypted → List ℕ
plain_bytes (decrypted xs) = xs
plain_bytes _ = []

module _ (ssl : OpenSsl) (s r : Session) (mirrors : Mirrors s r) (t : ℕ) (sent : List ℕ) where
  -- The header, the payload and the integrity trailer.
  abbrev covered : Bool → List ℕ
  covered icts = session_header s t (length sent) ++ (sent ++ integrity_trailer icts (length sent))

  taken :
      (tail : List ℕ)
      → take
          (length sent)
          (drop 16 (rmcp_hdr ++ (session_header s t (length sent) ++ (sent ++ tail))))
        ≡ sent
  taken tail =
      rw (session_header_lem s mirrors.s_active t (length sent))
        (take_middle (length sent) sent tail refl)
