-- ===== src/Prelude/File.antt =====
-- A cache file: there is none, or none that parses, or one that parses to a value. It is written
-- under another name and then renamed, so that a failed write leaves it as it was.
pub data CacheFile {ℓ} (A : Type ℓ) : Type ℓ where
  missing unreadable : CacheFile A
  holding : A → CacheFile A
