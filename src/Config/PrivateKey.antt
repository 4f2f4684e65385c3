-- ===== src/Config/PrivateKey.antt =====
-- src/snowglobe/private_key.py: the loading of the key. What the cryptography package makes of the
-- bytes is a parameter.
use snowglobe.Prelude.{Bool, if◌then◌else◌}
use snowglobe.Exec.{Result, err, os_error, value_error, type_error, private_key_error}
use snowglobe.Fallible.{◌>>=◌}
use snowglobe.Arrow.Types.{Bytes}

-- `load_pem_private_key`, `load_der_private_key`, `isinstance(key, RSAPrivateKey)` and
-- `key.private_bytes`
pub record Cryptography : Type 1 where
  pub Key : Type 0
  pub load_pem : Bytes → Result Key
  pub load_der : Bytes → Result Key
  pub is_rsa : Key → Bool
  pub private_bytes : Key → Result Bytes

-- `except OSError`
unfoldable pub unreadable {ℓ} : {A : Type ℓ} → Result A → Result A
unreadable (err os_error) = err private_key_error
unreadable r = r

-- `except (TypeError, ValueError)`
unfoldable pub unparsable {ℓ} : {A : Type ℓ} → Result A → Result A
unparsable (err type_error) = err private_key_error
unparsable (err value_error) = err private_key_error
unparsable r = r

-- `except ValueError`, with what is tried next
unfoldable pub or_else {ℓ} : {A : Type ℓ} → Result A → Result A → Result A
or_else (err value_error) next = next
or_else r next = r

module _ (crypto : Cryptography) where
  open crypto use {Key, load_pem, load_der, is_rsa, private_bytes}

  unfoldable pub parse_key : Bytes → Result Key
  parse_key key_bytes = unparsable (or_else (load_pem key_bytes) (load_der key_bytes))

  -- `load_private_key`; `read` is what `path.read_bytes()` gives
  unfoldable pub load_private_key : Result Bytes → Result Bytes
  load_private_key read = do
    key_bytes ← unreadable read
    key ← parse_key key_bytes
    if is_rsa key then private_bytes key else err private_key_error
