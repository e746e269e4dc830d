-- ===== src/Store/Quotes.antt =====
-- Quotes of prices, and the zones that are served.
use wassal.Prelude.{ℕ, Bool, Option, Enum}

pub data QuoteStatus : Type 0 where
  active superseded expired consumed cancelled : QuoteStatus

unfoldable pub QuoteStatus-discrete : Discrete QuoteStatus
QuoteStatus-discrete = hlevel

instance abbrev pub quote_status_enum : Enum QuoteStatus
quote_status_enum = record { same = QuoteStatus-discrete }

-- `model PriceQuote`, with whether its store is active.
pub record PriceQuote : Type 0 where
  pub merchant_id : ℕ
  pub service_zone_id : ℕ
  pub store_is_active : Bool
  pub status : QuoteStatus
  pub distance_meters : ℕ
  pub merchant_total_minor : ℕ
  pub platform_commission_minor : ℕ
  pub expires_at : ℕ
  pub consumed_at : Option ℕ
  pub version : ℕ

-- `model ServiceZone`, less its circle on the map.
pub record ServiceZone : Type 0 where
  pub is_active : Bool
  pub allowed_pickup : Bool
  pub allowed_dropoff : Bool
  pub maximum_route_distance_meters : ℕ
