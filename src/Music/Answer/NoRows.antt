-- ===== src/Music/Answer/NoRows.antt =====
-- A query of the music library through the database of src/database/db_query.c at this commit, whose
-- statement is commented out.
use mod_mp.Base.{none}
use mod_mp.Apr.{Apr}
use mod_mp.ErrorMessages.{ErrorMessages}
use mod_mp.Output.{Output}
use mod_mp.Database.{QueryResults}
use mod_mp.Music.{QueryType, songs, albums, artists, sources, transcode, play, status, add_error}
use mod_mp.Music.Answer.{AnswerCalls, print_header, print_text}

-- The four types whose answer is a list.
unfoldable pub IsList : QueryType → Type 0
IsList songs = Unit
IsList albums = Unit
IsList artists = Unit
IsList sources = Unit
IsList transcode = ⊥
IsList play = ⊥
IsList status = ⊥

module _ (apr : Apr) (calls : AnswerCalls apr) where
  abbrev no_rows : QueryResults
  no_rows = record { row_array = none }

  -- The messages behind the attempt to print.
  abbrev pub noted : ErrorMessages → ErrorMessages
  noted em = add_error print_header print_text em
