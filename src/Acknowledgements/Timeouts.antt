-- ===== src/Acknowledgements/Timeouts.antt =====
-- `parseAckTimeoutMs` of lib/acknowledgements.js.
use node_red_contrib_bull.Prelude.{◌≡◌, true, false, arith}
use node_red_contrib_bull.Js.Number.{Number, is_finite, is_below}
use node_red_contrib_bull.Js.Value.{Value}
use node_red_contrib_bull.Acknowledgements.{parse_ack_timeout_ms}

-- A parsed timeout is a finite number and not negative, if the default is.
pub parse_ack_timeout_ms_bounds :
    (value : Value) (default_ms : Number)
    → is_finite default_ms ≡ true
    → is_below default_ms 0 ≡ false
    → (is_finite (parse_ack_timeout_ms value default_ms) ≡ true)
      × (is_below (parse_ack_timeout_ms value default_ms) 0 ≡ false)
unfolding parse_ack_timeout_ms
parse_ack_timeout_ms_bounds value default_ms f b = ground arith
