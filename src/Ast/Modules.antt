-- ===== src/Ast/Modules.antt =====
-- ast/mod.rs: visibility, imports and exports.
use metel.Prelude.{String, Option}
use metel.Error.{Span}

pub data Visibility : Type 0 where
  private public : Visibility

pub data PathRoot : Type 0 where
  root std self_ super : PathRoot
  name : String → PathRoot

mutual
  pub data ImportTree : Type 0 where
    name : String → Option String → ImportTree
    group : ImportTrees → ImportTree
    glob : ImportTree
    path : String → ImportTree → ImportTree

  -- `Vec<ImportTree>`
  pub data ImportTrees : Type 0 where
    nil : ImportTrees
    cons : ImportTree → ImportTrees → ImportTrees

pub record ImportPath : Type 0 where
  pub root : PathRoot
  pub tree : ImportTree

pub record ImportDecl : Type 0 where
  pub path : ImportPath
  pub span : Span

pub record ExportDecl : Type 0 where
  pub path : ImportPath
  pub span : Span
