-- ===== src/Filesystem/Descend.antt =====
-- fs_gen.c: descend, on a directory as it can be read. A directory or a file that cannot be opened
-- ends the program, and has no place in the tree.
use rigcontrol.Common.{
  ◌==◌, ◌&&◌, Bool, true, false, Option, none, some, List, [], ◌∷◌, ◌++◌, Bytes, take,
  if◌then◌else◌,
}
use rigcontrol.Filesystem.Generate.{File, fs_gen}

-- What stands in a directory, in the order of readdir: a name, whether readdir gives its type, and
-- what the name is of.
mutual
  pub data Items : Type 0 where
    nothing : Items
    entry : Bytes → Bool → Node → Items → Items

  pub data Node : Type 0 where
    regular : Bytes → Node
    directory : Items → Node
    symbolic_link : Node → Node
    special : Node

-- The names "." and "..".
abbrev pub is_dots : Bytes → Bool
is_dots (a ∷ []) = a == b'.'
is_dots (a ∷ b ∷ []) = a == b'.' && b == b'.'
is_dots _ = false

-- The path of a name in the top-level directory, which is `none`, or in another one.
abbrev pub joined_path : Option Bytes → Bytes → Bytes
joined_path none name = name
joined_path (some at) name = at ++ b'/' ∷ name

-- `snprintf` into 1024 bytes.
abbrev pub pathname_of : Option Bytes → Bytes → Bytes
pathname_of at name = take 1023 (joined_path at name)

-- The files in the order in which `write_file` is called. The type that readdir leaves unknown is
-- that of fstatat, which follows a symbolic link.
unfoldable mutual
  pub descend : Option Bytes → Items → List File
  descend at nothing = []
  descend at (entry name typed node rest) =
      let others = descend at rest in
      let here = descend_entry (pathname_of at name) name typed node in
      if is_dots name then others else here ++ others

  pub descend_entry : Bytes → Bytes → Bool → Node → List File
  descend_entry pathname name typed (regular contents) =
      (record { name = name; pathname = pathname; contents = contents }) ∷ []
  descend_entry pathname name typed (directory items) = descend (some pathname) items
  descend_entry pathname name true (symbolic_link node) = []
  descend_entry pathname name false (symbolic_link node) = descend_entry pathname name false node
  descend_entry pathname name typed special = []

-- `main`, with the directory that is to be embedded.
unfoldable pub generate : (Bytes → Bytes) → Items → Option Bytes
unfolding descend fs_gen
generate compress items = fs_gen compress (descend none items)
