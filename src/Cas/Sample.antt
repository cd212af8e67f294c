-- ===== src/Cas/Sample.antt =====
-- An environment for the examples: floats are numbers of tenths, and a compressed file is the
-- magic number and the data.
use backupos.Base.{
  ℕ, ◌+◌, ◌-◌, ◌*◌, refl, true, some, [], ◌++◌, Bytes, ltb, eqb, drop, replicate, All,
  All-replicate, arith,
}
use backupos.Base.Dict.{lookup}
use backupos.Entropy.{FloatOps}
use backupos.Merkle.Sample.{sample_sha256}
use backupos.Cas.{CasEnv, CasStore, zstd_magic}
use backupos.Cas.Sizes.{IsHexDigit}
use backupos.Cas.Decode.{IsZstd, IsFaithful}

abbrev pub tenths : FloatOps
tenths = record {
  Float = ℕ;
  of_nat = λ n. 10 * n;
  decimal = λ n k. n;
  add = λ a b. a + b;
  sub = λ a b. a - b;
  mul = λ a b. a * b;
  div = λ a b. a;
  pow = λ a b. a;
  log2 = λ a. a;
  sqrt = λ a. a;
  erfc = λ a. a;
  lt = ltb;
  eq = eqb;
}

abbrev pub sample_env : CasEnv tenths
sample_env = record {
  sha256 = sample_sha256;
  have_zstd = true;
  compress = λ bytes. zstd_magic ++ bytes;
  decompress = λ payload. some (drop 4 payload);
}

pub sample-IsZstd : IsZstd sample_env.compress sample_env.decompress
sample-IsZstd = record { magic = λ bytes. refl; inverse = λ bytes. refl }

-- The store of a directory that was just made.
abbrev pub empty_store : CasStore
empty_store = record { files = []; shards = [] }

pub empty-IsFaithful : IsFaithful tenths sample_env empty_store
unfolding lookup
empty-IsFaithful = λ h payload q at. absurd (cc at)

-- An environment whose digests are hex digits.
abbrev pub hex_env : CasEnv tenths
hex_env = record {
  sha256 = λ bytes. replicate 64 97;
  have_zstd = true;
  compress = λ bytes. zstd_magic ++ bytes;
  decompress = λ payload. some (drop 4 payload);
}

hex_digit : IsHexDigit 97
hex_digit = omega arith

pub hex-All : (bytes : Bytes) → All IsHexDigit (hex_env.sha256 bytes)
hex-All bytes = All-replicate IsHexDigit 64 97 hex_digit
