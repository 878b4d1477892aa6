-- ===== src/Le2lib/Polling.antt =====
-- generic/le2lib.c: `poll_fd`, which reads descriptors from a table and returns a table of those
-- with an event. A failure of `realloc`, which the code does not test, is left out.
pub mod Selection
use e2factory.Common.{
  ℕ, zero, suc, ◌+◌, ◌-◌, Bool, true, false, not, Option, none, some, List, [], ◌∷◌, Bytes, String,
  codes, ℤ, pos, negsuc, negative, nonzero, length, get_or, bit_and, ltb, ltb_ℤ, ◌==◌, ◌&&◌,
  if◌then◌else◌,
}
use e2factory.Lua.{
  Value, boolean, number, string, table, Fields, end, field, Api, M, ◌>>=◌, ◌>>◌, pure, return,
  when, push, at_index, sys, look, lua_l_error, lua_l_checkinteger, or_argerror, fail_with,
  return_true,
}
use e2factory.Le2lib.Posix.{Posix, fail_errno_3}

-- The bits of <poll.h>
abbrev pub pollin : ℕ
pollin = 1

abbrev pub pollout : ℕ
pollout = 4

abbrev pub pollerr : ℕ
pollerr = 8

abbrev pub pollhup : ℕ
pollhup = 16

abbrev pub pollnval : ℕ
pollnval = 32

abbrev bit : ℕ → ℕ → Value
bit revents mask = boolean (not (bit_and revents mask == 0))

abbrev entry : String → Value → Fields → Fields
entry key v rest = field (string (codes key)) v rest

-- One element of the result, for the descriptor at the position `nfds` of the array.
unfoldable pub ready_entry : ℤ → ℕ → ℕ → Value
ready_entry fd nfds revents = table (
    entry "fd" (number fd) (
      entry "fdvecpos" (number (pos (nfds + 1))) (
        entry "POLLIN" (bit revents pollin) (
          entry "POLLOUT" (bit revents pollout) (
            entry "POLLERR" (bit revents pollerr) (
              entry "POLLHUP" (bit revents pollhup)
                (entry "POLLNVAL" (bit revents pollnval) end)))))))

-- `while (index < f && --nfds >= 0)`: from the last descriptor down, at most `f` elements.
unfoldable pub ready_from : List ℤ → List ℕ → ℕ → ℕ → ℕ → Fields
ready_from fds revents f zero index = end
ready_from fds revents f (suc nfds) index =
    let r = get_or revents nfds 0 in
    let rest = ready_from fds revents f nfds index in
    let found =
      field (number (pos (index + 1))) (ready_entry (get_or fds nfds (pos 0)) nfds r)
        (ready_from fds revents f nfds (index + 1)) in
    if ltb index f then (if r == 0 then rest else found) else end

module _ (api : Api) (p : Posix) where
  -- The loop that fills the array, with `luaL_checkinteger` of each element; `none` when one of
  -- them is no number.
  unfoldable pub read_fds : List Value → Option (List ℤ)
  read_fds [] = some []
  read_fds (v ∷ vs) = elim (api.checkinteger (some v)) [
    | none ↦ none
    | some fd ↦ elim (read_fds vs) [ none ↦ none | some fds ↦ some (fd ∷ fds) ]
  ]

  unfoldable pub poll_fd : M p.State (Unit {0})
  poll_fd = do
    tmo ← lua_l_checkinteger api 1
    t ← at_index 2
    vs ← or_argerror api 2 "table expected" (api.sequence t)
    fds ← elim (read_fds vs) [
      | none ↦ lua_l_error (api.argerror_top (codes "number expected"))
      | some l ↦ pure l
    ]
    r ← sys (p.poll fds tmo)
    when (negative r.0) (fail_errno_3 p)
    push (table (ready_from fds r.1 (ready_count r.0) (length fds) 0))
    return 1
    where
      ready_count : ℤ → ℕ
      ready_count (pos n) = n
      ready_count (negsuc n) = 0
