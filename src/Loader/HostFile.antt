-- ===== src/Loader/HostFile.antt =====
-- ShadPS4HostFile, its four operations, and shadps4_read_exact. `Host` stands for the brokered
-- storage of the host application and for the operating system's files, neither of which is in
-- this repository; `H` is their state.
pub mod Exact
use qemu_dll_shadps.Base.{
  ℕ, zero, suc, ◌+◌, ◌-◌, ◌%◌, ◌^◌, ◌≤◌, ◌<◌, ◌≡◌, ℤ, pos, negsuc, Bool, true, false, ◌||◌, Option,
  none, some, List, [], ◌∷◌, ◌++◌, ltb, leb, ◌==◌, if◌then◌else◌, length, take, drop, Outcome, done,
  fail, arith,
}
use qemu_dll_shadps.Loader.Types.{Error}

pub data Whence : Type 0 where
  seek_set seek_end : Whence

-- `ret < 0`.
abbrev pub is_negative : ℤ → Bool
is_negative (pos n) = false
is_negative (negsuc n) = true

-- A read returns `none` for a negative result, and else the bytes that it put into the buffer.
pub record Host (H : Type 0) : Type 0 where
  pub path_is_brokered : List ℕ → Bool
  pub storage_open : H → List ℕ → ℤ × ℤ × H
  pub storage_seek : H → ℤ → ℕ → Whence → ℤ × H
  pub storage_read : H → ℤ → ℕ → Option (List ℕ) × H
  pub storage_close : H → ℤ → H
  pub os_open : H → List ℕ → ℤ × H
  pub os_seek : H → ℤ → ℕ → Whence → ℤ × H
  pub os_read : H → ℤ → ℕ → Option (List ℕ) × H
  pub os_close : H → ℤ → H

pub record HostFile : Type 0 where
  pub brokered : Bool
  pub fd : ℤ
  pub handle : ℤ
  pub path : List ℕ

abbrev fresh_file : List ℕ → HostFile
fresh_file path = record { brokered = false; fd = negsuc 0; handle = negsuc 0; path = path }

module _ {H : Type 0} (host : Host H) where
  -- What the call returns is the file, or a failure whose state is the host's after it.
  unfoldable pub host_file_open : H → List ℕ → Outcome Error H HostFile
  host_file_open h path =
      if host.path_is_brokered path
      then (let (ret, handle, h') = host.storage_open h path in
          if is_negative ret
          then fail Error.open_failed h'
          else done (record (fresh_file path) { handle = handle; brokered = true }) h')
      else (let (fd, h') = host.os_open h path in
          if is_negative fd
          then fail Error.open_failed h'
          else done (record (fresh_file path) { fd = fd }) h')

  unfoldable pub host_file_seek : HostFile → H → ℕ → Whence → ℤ × H
  host_file_seek file h offset whence =
      if file.brokered
      then host.storage_seek h file.handle offset whence
      else host.os_seek h file.fd offset whence

  unfoldable pub host_file_read : HostFile → H → ℕ → Option (List ℕ) × H
  host_file_read file h size =
      if file.brokered then host.storage_read h file.handle size else host.os_read h file.fd size

  unfoldable pub host_file_close : HostFile → H → H
  host_file_close file h =
      if file.brokered
      then host.storage_close h file.handle
      else (if is_negative file.fd then h else host.os_close h file.fd)

  -- `while (size)`: `out` is what the buffer holds before the cursor.
  unfoldable pub read_loop : ℕ → HostFile → H → ℕ → List ℕ → Outcome Error H (List ℕ)
  read_loop fuel file h zero out = done out h
  read_loop zero file h (suc size) out = fail Error.out_of_fuel h
  read_loop (suc fuel) file h (suc size) out =
      let (bytes, h') = host_file_read file h (suc size) in
      elim bytes [
        | none ↦ fail Error.read_failed h'
        | some bs ↦ elim bs [
          | [] ↦ fail Error.unexpected_end h'
          | b ∷ rest ↦
              read_loop fuel file h' ((suc size + 2 ^ 64 - suc (length rest)) % 2 ^ 64)
                (out ++ b ∷ rest)
        ]
      ]

  -- A read that does not fail and is not at the end takes a byte at least, so `size` rounds do.
  unfoldable pub read_exact : HostFile → H → ℕ → ℕ → Outcome Error H (List ℕ)
  unfolding read_loop host_file_read
  read_exact file h offset size =
      if ltb (2 ^ 63 - 1) offset
      then fail Error.seek_failed h
      else (let (ret, h') = host_file_seek file h offset seek_set in
          if is_negative ret then fail Error.seek_failed h' else read_loop size file h' size [])
