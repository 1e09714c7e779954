-- ===== src/SshProxy/Handshake/Enrolled.antt =====
-- One enrollment from end to end: the first connection, the page in the browser, the next connection.
use forge_proxy.Base.{Bytes, false}
use forge_proxy.Net.Header.{Header}
use forge_proxy.Session
use forge_proxy.Session.{Session}
use forge_proxy.User.{User}
use forge_proxy.SshKey
use forge_proxy.SshKey.{Table, get, add}
use forge_proxy.Enrollment.{Enrollment}
use forge_proxy.SshProxy.Handshake.{KeyLookup, found, missing, failed}

-- What the callback sees of the answer of the key store.
unfoldable pub key_lookup : SshKey.Result → KeyLookup
key_lookup (SshKey.Result.ok k) =
    found (record { user_id = k.user_id; fingerprint = k.fingerprint })
key_lookup (SshKey.Result.err SshKey.Error.not_found) = missing
key_lookup (SshKey.Result.err SshKey.Error.fingerprint_taken) = failed
key_lookup (SshKey.Result.err SshKey.Error.failed) = failed

unfoldable pub stored_keys : Table → Bytes → KeyLookup
unfolding key_lookup get
stored_keys t f = key_lookup (get false f t)
