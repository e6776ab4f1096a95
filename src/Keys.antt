-- ===== src/Keys.antt =====
-- node_agent/keys.py: the key file of an agent, over the `cryptography` package as an interface.
pub mod Stable
mod Tests
use lustro_node_agent.Base.{Bool, true, false, Option, none, some, if◌then◌else◌}
use lustro_node_agent.Base.Text.{Text, Bytes}
use lustro_node_agent.Base.Result.{Result, ok, err, or_raise, os_error, value_error}
use lustro_node_agent.Base.Exec.{Outcome, Exec, returned, raised, lift, ◌>>=◌, ◌>>◌}
use lustro_node_agent.Platform.{Platform}

-- What the key path names: nothing, a file, or a symbolic link to a file or to nothing.
pub data Entry : Type 0 where
  absent : Entry
  file : Bytes → Entry
  link : Option Bytes → Entry

-- `Ed25519PrivateKey` and its PEM serialization
pub record KeyLibrary (K : Type 0) : Type 0 where
  -- `load_pem_private_key(raw, password=None)`: `none` is a `ValueError`.
  pub load_pem : Bytes → Option K
  pub to_pem : K → Bytes
  pub public_bytes_raw : K → Bytes
  pub sign : K → Bytes → Bytes

-- `p.exists()`, which follows a link
unfoldable pub exists : Entry → Bool
exists absent = false
exists (file b) = true
exists (link none) = false
exists (link (some b)) = true

-- `path.read_bytes()`: a missing file is an `OSError`.
unfoldable pub read_bytes : Entry → Result Bytes
read_bytes absent = err os_error
read_bytes (file b) = ok b
read_bytes (link none) = err os_error
read_bytes (link (some b)) = ok b

-- `os.open(…, O_WRONLY | O_CREAT | O_EXCL | O_NOFOLLOW)` and the write of a new file: what is there
-- already, a link included, makes the call fail and stays.
unfoldable pub write_new : Bytes → Exec Entry (Unit {0})
write_new b absent = returned tt (file b)
write_new b (file c) = raised os_error (file c)
write_new b (link target) = raised os_error (link target)

module _ {K : Type 0} (L : KeyLibrary K) where
  -- `_load_private` on what was read
  unfoldable pub parse_private : Result Bytes → Result K
  parse_private (ok raw) = or_raise (L.load_pem raw) value_error
  parse_private (err e) = err e

  -- `AgentKeys(p)`, which calls `_load_private`
  unfoldable pub load_private : Exec Entry K
  unfolding read_bytes parse_private
  load_private e = lift (parse_private (read_bytes e)) e

  -- What another process does to the path between two calls of this one.
  abbrev pub interrupted : (Entry → Entry) → Exec Entry (Unit {0})
  interrupted others e = returned tt (others e)

  -- `ensure_keypair`, where `fresh` is the key that `generate()` returns, and `others` is what happens
  -- to the path between `p.exists()` and `os.open`.
  unfoldable pub ensure_keypair : K → (Entry → Entry) → Exec Entry K
  unfolding exists load_private write_new
  ensure_keypair fresh others e =
      if exists e
      then load_private e
      else (do interrupted others; write_new (L.to_pem fresh); load_private) e

  -- `AgentKeys.public_key_raw_b64`
  unfoldable pub public_key_raw_b64 : Platform → K → Text
  public_key_raw_b64 P k = P.b64encode (L.public_bytes_raw k)
