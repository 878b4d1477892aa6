-- ===== src/Su/Job.antt =====
-- global/e2-su-2.2.c: what a command line asks for, as the usage of the helper has it: the marker
-- file that has to be there, the tool, and the directory that the tool works on.
use e2factory.Common.{
  ℕ, Option, none, some, List, [], Bytes, codes, bytes_eq, get_elem?, Bool, false, if◌then◌else◌,
  ◌&&◌,
}
use e2factory.Common.Sorting.{member}
use e2factory.Su.Run.{Host, snprintf}

pub record Job : Type 0 where
  pub marker : Bytes
  pub tool : Bytes
  pub target : Bytes

abbrev pub argument : List Bytes → ℕ → Bytes
argument argv i = elim (get_elem? argv i) [ none ↦ [] | some a ↦ a ]

-- The commands of version 2.2 name the chroot itself.
abbrev pub on_chroot : Bytes → Bytes → Job
on_chroot tool path = record { marker = snprintf path "/emlix-chroot"; tool = tool; target = path }

-- Those of version 2.3 name the directory in which it stands.
abbrev pub on_base : Bytes → Bytes → Job
on_base tool base = record {
  marker = snprintf base "/e2factory-chroot";
  tool = tool;
  target = snprintf base "/chroot";
}

-- `none` for an unknown command.
abbrev pub job_for : Host → Bytes → Bytes → Option Job
job_for h path cmd =
    if bytes_eq cmd (codes "chroot_2_2")
    then some (on_chroot h.chroot_tool path)
    else if bytes_eq cmd (codes "extract_tar_2_2")
    then some (on_chroot h.tar_tool path)
    else if bytes_eq cmd (codes "set_permissions_2_2")
    then some (on_chroot h.chown_tool path)
    else if bytes_eq cmd (codes "remove_chroot_2_2")
    then some (on_chroot h.rm_tool path)
    else if bytes_eq cmd (codes "chroot_2_3")
    then some (on_base h.chroot_tool path)
    else if bytes_eq cmd (codes "extract_tar_2_3")
    then some (on_base h.tar_tool path)
    else if bytes_eq cmd (codes "set_permissions_2_3")
    then some (on_base h.chown_tool path)
    else if bytes_eq cmd (codes "remove_chroot_2_3")
    then some (on_base h.rm_tool path)
    else none

abbrev pub job_of : Host → List Bytes → Option Job
job_of h argv = job_for h (argument argv 2) (argument argv 1)

abbrev pub is_marker : Option Job → Bytes → Bool
is_marker none name = false
is_marker (some job) name = bytes_eq name job.marker

-- The tool of the job, with its directory among the arguments.
abbrev pub is_work : Option Job → Bytes → List Bytes → Bool
is_work none tool args = false
is_work (some job) tool args = bytes_eq tool job.tool && member job.target args
