-- ===== src/Digest.antt =====
-- internal/config/digest.go and auth.go: HTTP Digest authentication. This file has the data; the
-- children read challenges, write answers and keep the shared challenge. The hash functions of
-- crypto/md5 and crypto/sha256 are a parameter, and the reader sees bytes where the source sees
-- characters, which is the same for a header of ASCII characters.
mod Reader
mod Answer
mod State
mod Cache
mod Session
mod Counts
mod Accepts
mod Fields
mod Scan
mod Shown
mod RoundTrip
mod Tests
unfoldable pub use Reader.*
unfoldable pub use State.*
unfoldable pub use Answer.*
