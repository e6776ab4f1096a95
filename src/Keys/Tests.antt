-- ===== src/Keys/Tests.antt =====
-- A library whose keys are their own serialization, and a path that nobody else touches.
use lustro_node_agent.Base.{◌≡◌, ◌≢◌, ◌⊎◌, refl, false, some, none}
use lustro_node_agent.Base.Text.{Bytes, text}
use lustro_node_agent.Base.Exec.{returned, final}
use lustro_node_agent.Keys.{Entry, absent, file, link, KeyLibrary, exists, ensure_keypair}
use lustro_node_agent.Keys.Stable.{ensure_keypair-keeps}

abbrev plain : KeyLibrary Bytes
plain = record {
  load_pem = λ b. some b;
  to_pem = λ k. k;
  public_bytes_raw = λ k. k;
  sign = λ k m. m;
}

abbrev alone : Entry → Entry
alone e = e

-- Another process plants a link between the test and the creation.
abbrev planted : Entry → Entry
planted e = link none

first_run :
    ensure_keypair plain (text "one") alone absent ≡ returned (text "one") (file (text "one"))
unfolding ensure_keypair
first_run = refl

ensure_keypair-keeps_example :
    (final (ensure_keypair plain (text "one") planted absent) ≡ absent)
    ⊎ ((exists absent ≡ false)
        × (planted absent ≢ absent)
        × (final (ensure_keypair plain (text "one") planted absent) ≡ planted absent))
    ⊎ ((exists absent ≡ false)
        × (planted absent ≡ absent)
        × (final (ensure_keypair plain (text "one") planted absent) ≡ file (text "one")))
ensure_keypair-keeps_example = ensure_keypair-keeps plain (text "one") planted absent
