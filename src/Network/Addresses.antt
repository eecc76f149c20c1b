-- ===== src/Network/Addresses.antt =====
-- Go's net/netip, which routes and ACLs use: its types and functions as parameters, and what its
-- documentation says of them.
use switch_manager.Base.{◌≡◌, Bool, true, Option, some, any, ◌==◌}
use switch_manager.Base.Text.{Text, trim_space}

pub record Netip : Type 1 where
  pub Addr : Type 0
  pub Prefix : Type 0
  pub parse_addr : Text → Option Addr
  pub addr_text : Addr → Text
  pub addr_is4 : Addr → Bool
  pub is_unspecified : Addr → Bool
  pub is_multicast : Addr → Bool
  pub parse_prefix : Text → Option Prefix
  pub prefix_text : Prefix → Text
  pub masked : Prefix → Prefix
  pub prefix_is4 : Prefix → Bool

-- A prefix has a slash. `String` of a value that was parsed is parsed to the same value. The text of a
-- prefix, which has no zone, has no surrounding white space, nor has that of an address that was
-- parsed from a trimmed text, whose zone is the end of that text; masking a second time
-- changes nothing.
pub record Lawful (n : Netip) : Type 1 where
  pub addr_round_trip :
      (s : Text) (a : n.Addr) → n.parse_addr s ≡ some a → n.parse_addr (n.addr_text a) ≡ some a
  pub prefix_round_trip :
      (s : Text) (p : n.Prefix)
      → n.parse_prefix s ≡ some p
      → n.parse_prefix (n.prefix_text (n.masked p)) ≡ some (n.masked p)
  pub prefix_has_slash :
      (s : Text) (p : n.Prefix) → n.parse_prefix s ≡ some p → any (λ c. c == b'/') s ≡ true
  pub masked_twice : (p : n.Prefix) → n.masked (n.masked p) ≡ n.masked p
  pub addr_trimmed :
      (s : Text) (a : n.Addr)
      → n.parse_addr (trim_space s) ≡ some a
      → trim_space (n.addr_text a) ≡ n.addr_text a
  pub prefix_trimmed : (p : n.Prefix) → trim_space (n.prefix_text p) ≡ n.prefix_text p
