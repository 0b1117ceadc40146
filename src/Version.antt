-- ===== src/Version.antt =====
-- version/version.go: a revision number of the protocol.
use neofs_sdk_go.Prelude.{ℕ, Bool, ◌&&◌, ◌==◌}

pub record Version : Type 0 where
  pub major : ℕ  -- uint32
  pub minor : ℕ  -- uint32

abbrev pub sdk_mjr : ℕ
sdk_mjr = 2

abbrev pub sdk_mnr : ℕ
sdk_mnr = 13

-- `Current`
unfoldable pub current : Version
current = record { major = sdk_mjr; minor = sdk_mnr }

-- `Equal`
unfoldable pub equal : Version → Version → Bool
equal v v2 = v.major == v2.major && v.minor == v2.minor
