-- ===== src/Transport/Choice.antt =====
-- src/core/transport_factory.cpp: which backend a name gives, and the names that a host offers.
-- What batched_io_available, uring_available and uring_sqpoll_available find is a parameter.
use text.Mathlib.Text.{◌==◌ as str_eq}
use Prim.Native.String.{String}
use linerate.Base.{
  ◌≡◌, refl, Bool, true, false, Option, none, some, List, [], ◌∷◌, ◌++◌, All, if◌then◌else◌,
}

-- The factory that make_transport calls; for io_uring, with its `sqpoll` argument.
pub data Maker : Type 0 where
  make_posix : Maker
  make_mmsg : Maker
  make_uring : Bool → Maker

unfoldable pub make_transport : String → Option Maker
make_transport backend =
    if str_eq backend "posix"
    then some make_posix
    else if str_eq backend "mmsg"
    then some make_mmsg
    else if str_eq backend "uring"
    then some (make_uring false)
    else if str_eq backend "uring-sqpoll"
    then some (make_uring true)
    else none

abbrev if_there : Bool → String → List String
if_there b name = if b then name ∷ [] else []

unfoldable pub transport_backends : Bool → Bool → Bool → List String
transport_backends batched uring sqpoll =
    ("posix" ∷ [])
    ++ (if_there batched "mmsg" ++ (if_there uring "uring" ++ if_there sqpoll "uring-sqpoll"))

-- A host that has what the backend needs.
abbrev IsOffered : Bool → Bool → Bool → Maker → Type 0
IsOffered batched uring sqpoll make_posix = Unit
IsOffered batched uring sqpoll make_mmsg = batched ≡ true
IsOffered batched uring sqpoll (make_uring false) = uring ≡ true
IsOffered batched uring sqpoll (make_uring true) = sqpoll ≡ true

-- Every name that the host offers is known to make_transport, and gives a backend that the host
-- has what it needs for.
transport_backends_made :
    (batched uring sqpoll : Bool)
    → All
        (λ name. (m : Maker) × (make_transport name ≡ some m) × IsOffered batched uring sqpoll m)
        (transport_backends batched uring sqpoll)
unfolding transport_backends make_transport
transport_backends_made true true true = (
  (make_posix, refl, tt),
  ((make_mmsg, refl, refl), ((make_uring false, refl, refl), ((make_uring true, refl, refl), tt))),
)
transport_backends_made true true false =
    ((make_posix, refl, tt), ((make_mmsg, refl, refl), ((make_uring false, refl, refl), tt)))
transport_backends_made true false true =
    ((make_posix, refl, tt), ((make_mmsg, refl, refl), ((make_uring true, refl, refl), tt)))
transport_backends_made true false false = ((make_posix, refl, tt), ((make_mmsg, refl, refl), tt))
transport_backends_made false true true =
    ((make_posix, refl, tt), ((make_uring false, refl, refl), ((make_uring true, refl, refl), tt)))
transport_backends_made false true false =
    ((make_posix, refl, tt), ((make_uring false, refl, refl), tt))
transport_backends_made false false true =
    ((make_posix, refl, tt), ((make_uring true, refl, refl), tt))
transport_backends_made false false false = ((make_posix, refl, tt), tt)
