-- ===== src/Output.antt =====
-- src/output.h and output.c: the response that a request builds up.
use mod_mp.Base.{Bytes, codes, ℕ, Option, none, some, []}
use mod_mp.Apr.{Apr}
use mod_mp.ErrorMessages.{ErrorMessages, error_messages_init, error_messages_print_json_bb}

module _ (apr : Apr) where
  pub record Output : Type 0 where
    pub bucket_brigade : apr.Brigade
    pub headers : apr.Table
    pub content_type : Bytes
    pub length : ℕ
    pub error_messages : ErrorMessages

  -- The buffer of the content type and the error messages are zeros of apr_pcalloc.
  unfoldable pub output_init_bb : Output
  output_init_bb = record {
    bucket_brigade = apr.brigade_create;
    headers = apr.table_make;
    content_type = [];
    length = 0;
    error_messages = error_messages_init;
  }

  -- The status is that of apr_brigade_length.
  unfoldable pub output_finalize_bb : Output → apr.Table → ℕ × Output × apr.Table
  output_finalize_bb output out_headers =
      let bb = apr.brigade_insert_eos output.bucket_brigade in
      let (rv, length) = apr.brigade_length bb in
      (
        rv,
        record output { bucket_brigade = bb; length = length },
        apr.table_overlap out_headers output.headers,
      )

  -- `none` is the fault of error_messages_print_json_bb.
  unfoldable pub output_status_json : Output → Option Output
  output_status_json output =
      let headers =
        apr.table_add output.headers (codes "Access-Control-Allow-Origin") (codes "*") in
      let content_type = apr.cpystrn (codes "application/json") 255 in
      let opened = apr.brigade_puts output.bucket_brigade (codes "{\n") in
      elim (error_messages_print_json_bb apr output.error_messages opened) [
        | none ↦ none
        | some printed ↦ some (record output {
          headers = headers;
          content_type = content_type;
          bucket_brigade = apr.brigade_puts printed (codes "\n}\n");
        })
      ]
