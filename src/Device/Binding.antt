-- ===== src/Device/Binding.antt =====
-- `DeviceClaim._signing_payload` of device.py: what a signature over it binds.
use nlboot.Base.{ℕ, ◌≤◌, ◌≡◌, refl, sym, ap, ◌∙◌}
use nlboot.Json.Write.{sorted}
use nlboot.Json.Numbers.{numbers}
use nlboot.Json.Faithful.{dumps_iff}
use nlboot.Time.{IsoFormat, zulu_to_offset, last_instant}
use nlboot.Time.Laws.{fromisoformat-zulu}
use nlboot.Device.{DeviceClaim, zulu_time, signing_payload}

module _ (iso : IsoFormat) where
  zulu_time-injective :
      (t u : ℕ) → t ≤ last_instant → u ≤ last_instant → zulu_time iso t ≡ zulu_time iso u → t ≡ u
  unfolding zulu_time
  zulu_time-injective t u p q h =
      let read =
        sym (fromisoformat-zulu iso t p)
        ∙ ap (λ s. iso.fromisoformat (zulu_to_offset s)) h
        ∙ fromisoformat-zulu iso u q in
      cc read

  -- A claim's signature binds all that the claim asserts: two claims with times up to the year
  -- 9999 that have the same signing payload have the same device id, public key, nonce and time.
  pub signing_payload-injective :
      (c d : DeviceClaim)
      → c.claimed_at ≤ last_instant
      → d.claimed_at ≤ last_instant
      → signing_payload iso c.device_id c.public_key_pem c.nonce c.claimed_at
        ≡ signing_payload iso d.device_id d.public_key_pem d.nonce d.claimed_at
      → (c.device_id ≡ d.device_id)
        × (c.public_key_pem ≡ d.public_key_pem)
        × (c.nonce ≡ d.nonce)
        × (c.claimed_at ≡ d.claimed_at)
  unfolding signing_payload sorted numbers
  signing_payload-injective c d p q h =
      let same = (dumps_iff _ _ refl refl).0 h in
      (cc same, cc same, cc same, zulu_time-injective c.claimed_at d.claimed_at p q (cc same))
