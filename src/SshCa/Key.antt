-- ===== src/SshCa/Key.antt =====
-- internal/sshca/ca.go: the file of a private key. The crypto library makes, writes and reads keys; the
-- file system answers by argument.
pub mod Kept
pub mod Tests
use forge_proxy.Base.{
  Bytes, codes, is_empty, Bool, true, false, ◌++◌, Option, none, some, if◌then◌else◌,
}
use forge_proxy.Base.Dict.{Dict, lookup, insert}

pub data Error : Type 0 where
  empty_path no_read no_parse no_stat no_directory no_key no_text no_write no_public_key
        no_public_write no_signer :
      Error

pub data Result (K : Type 0) : Type 0 where
  ok : K → Result K
  err : Error → Result K

-- What the crypto library does with keys: the text of a private key and of its public key, and the
-- key of a text.
pub record Keys (K : Type 0) : Type 0 where
  pub private_text : K → Bytes
  pub public_text : K → Bytes
  pub parse : Bytes → Option K

-- How the calls end: none of a key is a failure to make it. A write that fails leaves the file as it
-- was or with the text that is given.
pub record Outside (K : Type 0) : Type 0 where
  pub stat_fails : Bool
  pub read_fails : Bool
  pub mkdir_fails : Bool
  pub new_key : Option K
  pub text_fails : Bool
  pub write_fails : Option (Option Bytes)
  pub public_fails : Bool
  pub public_write_fails : Option (Option Bytes)
  pub signer_fails : Bool

abbrev pub Files : Type 0
Files = Dict Bytes

-- What a failed write leaves.
left : Bytes → Option Bytes → Files → Files
unfolding insert
left path none fs = fs
left path (some text) fs = insert path text fs

pub public_path : Bytes → Bytes
public_path path = path ++ codes ".pub"

module _ {K : Type 0} (keys : Keys K) (o : Outside K) where
  signed : K → Files → Result K × Files
  signed k fs = if o.signer_fails then (err no_signer, fs) else (ok k, fs)

  write_public : Bytes → K → Option (Option Bytes) → Files → Result K × Files
  unfolding left signed insert public_path
  write_public path k (some rest) fs = (err no_public_write, left (public_path path) rest fs)
  write_public path k none fs = signed k (insert (public_path path) (keys.public_text k) fs)

  write_private : Bytes → K → Option (Option Bytes) → Files → Result K × Files
  unfolding left write_public insert
  write_private path k (some rest) fs = (err no_write, left path rest fs)
  write_private path k none fs =
      let written = insert path (keys.private_text k) fs in
      if o.public_fails
      then (err no_public_key, written)
      else write_public path k o.public_write_fails written

  with_key : Bytes → Option K → Files → Result K × Files
  unfolding write_private
  with_key path none fs = (err no_key, fs)
  with_key path (some k) fs =
      if o.text_fails then (err no_text, fs) else write_private path k o.write_fails fs

  -- `generate`
  unfoldable pub generate : Bytes → Files → Result K × Files
  unfolding with_key
  generate path fs = if o.mkdir_fails then (err no_directory, fs) else with_key path o.new_key fs

  parsed : Option K → Result K
  parsed none = err no_parse
  parsed (some k) = ok k

  -- The two cases of a path: nothing is there, or a file is.
  loaded : Bytes → Option Bytes → Files → Result K × Files
  unfolding generate parsed
  loaded path none fs = generate path fs
  loaded path (some text) fs =
      if o.read_fails then (err no_read, fs) else (parsed (keys.parse text), fs)

  -- `LoadOrGenerate`
  unfoldable pub load_or_generate : Bytes → Files → Result K × Files
  unfolding loaded lookup
  load_or_generate path fs =
      if is_empty path
      then (err empty_path, fs)
      else if o.stat_fails
      then (err no_stat, fs)
      else loaded path (lookup path fs) fs
