-- ===== src/Api/Outside.antt =====
-- What the handlers call outside of the repository and of the parts modelled elsewhere.
use tanlnode.Base.{ℕ, Option, List}
use tanlnode.Sqlgen.{Text}
use tanlnode.Netip.{Addr, Prefix}
use tanlnode.Api.{Faults}

-- `netip.ParsePrefix`, a prefix in expanded form as the database has it, `String` of an address and
-- of a prefix; `wgtypes.ParseKey` and `String` of a key, `GeneratePrivateKey` for the private key (0)
-- and for the preshared key (1), `PublicKey`; the draws of the random source in each network and of
-- a port; and `WGEndpointPorts` of the configuration.
pub record Outside : Type 0 where
  pub faults : Faults
  pub parse_prefix : Text → Option Prefix
  pub print_prefix : Prefix → Text
  pub addr_string : Addr → Text
  pub prefix_string : Prefix → Text
  pub parse_key : Text → Option Text
  pub key_string : Text → Text
  pub generate_private_key : ℕ → Option Text
  pub public_key : Text → Text
  pub rand : ℕ → ℕ → ℕ
  pub draw_port : ℕ → ℕ
  pub ports : List ℕ
