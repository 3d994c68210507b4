-- ===== src/Version.antt =====
-- src/ujo.c: the version numbers of src/ujo_constants.h.
use libujo_c.Base.{ℕ}

-- UJO_VERSION and UJO_API_VERSION
abbrev pub library_version : ℕ
library_version = 901

abbrev pub api_version : ℕ
api_version = 101

-- `ujo_get_version` gives what it stores to its two references.
abbrev pub get_version : ℕ × ℕ
get_version = (library_version, api_version)
