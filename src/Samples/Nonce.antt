-- ===== src/Samples/Nonce.antt =====
-- The nonce table at concrete inputs.
use botshield.Prelude.{◌≡◌, refl, true, false, [], ◌∷◌, Bytes, arith, replicate}
use botshield.Shm.Slots.{acquired, window}
use botshield.Shm.State.{blank_nonce}
use botshield.Shm.Hash.{siphash24}
use botshield.Shm.Nonce.{nonce_consume, nonce_scan, nonce_locked, fingerprint}
use botshield.Shm.Nonce.Replay.{NonceReady}
use botshield.Shm.Nonce.History.{NonceCall, redeem, nonce_run, redeemed_once}
use botshield.Samples.Tables.{zeroed}

abbrev nonce : Bytes
nonce = 1 ∷ 2 ∷ 3 ∷ 4 ∷ 5 ∷ 6 ∷ 7 ∷ 8 ∷ []

abbrev other_nonce : Bytes
other_nonce = 9 ∷ 2 ∷ 3 ∷ 4 ∷ 5 ∷ 6 ∷ 7 ∷ 8 ∷ []

zeroed-NonceReady : NonceReady zeroed (replicate 16 blank_nonce)
zeroed-NonceReady = record { mapped = refl; sized = refl; nonempty = omega arith; guarded = refl }

abbrev first_call : NonceCall
first_call = record {
  lock = acquired;
  now = 100;
  warn_us = 100000000;
  nonce = nonce;
  expires_at = 400;
  ns = 0;
}

abbrev other_call : NonceCall
other_call = record {
  lock = acquired;
  now = 150;
  warn_us = 150000000;
  nonce = other_nonce;
  expires_at = 450;
  ns = 0;
}

abbrev second_call : NonceCall
second_call = record {
  lock = acquired;
  now = 399;
  warn_us = 399000000;
  nonce = nonce;
  expires_at = 400;
  ns = 0;
}

-- The last second in which the challenge of `first_call` is still accepted.
abbrev late_call : NonceCall
late_call = record {
  lock = acquired;
  now = 400;
  warn_us = 400000000;
  nonce = nonce;
  expires_at = 400;
  ns = 0;
}

accepted : (redeem zeroed first_call).1 ≡ true
unfolding redeem nonce_consume nonce_scan nonce_locked fingerprint siphash24 window
accepted = refl

refused : (redeem (redeem zeroed first_call).0 second_call).1 ≡ false
unfolding redeem nonce_consume nonce_scan nonce_locked fingerprint siphash24 window
refused = refl

accepted_at_expiry : (redeem (redeem zeroed first_call).0 late_call).1 ≡ true
unfolding redeem nonce_consume nonce_scan nonce_locked fingerprint siphash24 window
accepted_at_expiry = refl

redeemed_once_example :
    redeem (nonce_run (redeem zeroed first_call).0 (other_call ∷ [])) second_call
    ≡ (nonce_run (redeem zeroed first_call).0 (other_call ∷ []), false)
redeemed_once_example =
    redeemed_once zeroed (replicate 16 blank_nonce) first_call second_call (other_call ∷ [])
      zeroed-NonceReady accepted (omega arith, tt) (omega arith) refl refl
