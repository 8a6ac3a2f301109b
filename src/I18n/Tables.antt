-- ===== src/I18n/Tables.antt =====
-- The translation tables of src/i18n.rs.
use aardbin.Prelude.{Text, [], codes, ◌∷◌}
use aardbin.Prelude.Dict.{Dict}

unfoldable pub en_table : Dict Text
en_table =
    (codes "nav.new", codes "+ New")
    ∷ (codes "nav.logout", codes "Logout")
    ∷ (codes "login.title", codes "aardbin · Login")
    ∷ (codes "login.heading", codes "aardbin")
    ∷ (codes "login.tagline", codes "Your private bin.")
    ∷ (codes "login.access_key_label", codes "Access Key")
    ∷ (codes "login.access_key_placeholder", codes "Access Key")
    ∷ (codes "login.button", codes "Login")
    ∷ (codes "login.error", codes "Invalid access key")
    ∷ (codes "records.empty", codes "Nothing here yet. Click ")
    ∷ (codes "records.empty_new", codes "+ New")
    ∷ (codes "records.empty_tail", codes " to drop something.")
    ∷ (codes "records.undecryptable", codes "⚠ Unable to decrypt")
    ∷ (codes "records.untitled", codes "Untitled")
    ∷ (codes "records.copy", codes "Copy")
    ∷ (codes "records.edit", codes "Edit")
    ∷ (codes "records.delete", codes "Delete")
    ∷ (codes "records.delete_confirm", codes "Delete this record?")
    ∷ (codes "records.one_file", codes "1 file")
    ∷ (codes "records.more_files", codes "{n} more")
    ∷ (codes "records.prev", codes "← Prev")
    ∷ (codes "records.next", codes "Next →")
    ∷ (codes "records.page_info", codes "Page {page} / {total_pages} · {total} records")
    ∷ (codes "form.title_label", codes "Title")
    ∷ (codes "form.title_placeholder", codes "Optional title")
    ∷ (codes "form.content_label", codes "Content")
    ∷ (codes "form.content_placeholder", codes "Paste text, code, config...")
    ∷ (codes "form.attachments", codes "Attachments")
    ∷ (codes "form.max_each", codes "max {size} each")
    ∷ (codes "form.dropzone", codes "Drop files here or click to select")
    ∷ (codes "form.cancel", codes "Cancel")
    ∷ (codes "form.save", codes "Save")
    ∷ (codes "form.new_title", codes "New")
    ∷ (codes "form.edit_title", codes "Edit")
    ∷ (codes "att.download", codes "Download")
    ∷ (codes "att.delete_confirm", codes "Delete this attachment?")
    ∷ (codes "att.delete_title", codes "Delete attachment")
    ∷ (codes "js.copied", codes "Copied")
    ∷ (codes "js.copy_failed", codes "Copy failed")
    ∷ (codes "js.just_now", codes "just now")
    ∷ (codes "js.minute_ago", codes "1 minute ago")
    ∷ (codes "js.minutes_ago", codes "{n} minutes ago")
    ∷ (codes "js.hour_ago", codes "1 hour ago")
    ∷ (codes "js.hours_ago", codes "{n} hours ago")
    ∷ (codes "js.yesterday", codes "yesterday")
    ∷ (codes "js.exceeds_max", codes "exceeds max")
    ∷ (codes "js.skipped", codes "skipped")
    ∷ (codes "rate.too_many", codes "Too many attempts. Try again in {minutes} minute{plural}.")
    ∷ []

unfoldable pub zh_table : Dict Text
zh_table =
    (codes "nav.new", codes "+ 新建")
    ∷ (codes "nav.logout", codes "退出")
    ∷ (codes "login.title", codes "aardbin · 登录")
    ∷ (codes "login.heading", codes "aardbin")
    ∷ (codes "login.tagline", codes "你的私人记事本。")
    ∷ (codes "login.access_key_label", codes "访问密钥")
    ∷ (codes "login.access_key_placeholder", codes "访问密钥")
    ∷ (codes "login.button", codes "登录")
    ∷ (codes "login.error", codes "访问密钥无效")
    ∷ (codes "records.empty", codes "暂无内容。点击")
    ∷ (codes "records.empty_new", codes "+ 新建")
    ∷ (codes "records.empty_tail", codes "添加记录。")
    ∷ (codes "records.undecryptable", codes "⚠ 无法解密")
    ∷ (codes "records.untitled", codes "无标题")
    ∷ (codes "records.copy", codes "复制")
    ∷ (codes "records.edit", codes "编辑")
    ∷ (codes "records.delete", codes "删除")
    ∷ (codes "records.delete_confirm", codes "确定删除此记录？")
    ∷ (codes "records.one_file", codes "1 个文件")
    ∷ (codes "records.more_files", codes "还有 {n} 个")
    ∷ (codes "records.prev", codes "← 上页")
    ∷ (codes "records.next", codes "下页 →")
    ∷ (codes "records.page_info", codes "第 {page} / {total_pages} 页 · {total} 条记录")
    ∷ (codes "form.title_label", codes "标题")
    ∷ (codes "form.title_placeholder", codes "可选标题")
    ∷ (codes "form.content_label", codes "正文")
    ∷ (codes "form.content_placeholder", codes "粘贴文本、代码、配置…")
    ∷ (codes "form.attachments", codes "附件")
    ∷ (codes "form.max_each", codes "每个最大 {size}")
    ∷ (codes "form.dropzone", codes "拖放文件到此处或点击选择")
    ∷ (codes "form.cancel", codes "取消")
    ∷ (codes "form.save", codes "保存")
    ∷ (codes "form.new_title", codes "新建")
    ∷ (codes "form.edit_title", codes "编辑")
    ∷ (codes "att.download", codes "下载")
    ∷ (codes "att.delete_confirm", codes "确定删除此附件？")
    ∷ (codes "att.delete_title", codes "删除附件")
    ∷ (codes "js.copied", codes "已复制")
    ∷ (codes "js.copy_failed", codes "复制失败")
    ∷ (codes "js.just_now", codes "刚刚")
    ∷ (codes "js.minute_ago", codes "1 分钟前")
    ∷ (codes "js.minutes_ago", codes "{n} 分钟前")
    ∷ (codes "js.hour_ago", codes "1 小时前")
    ∷ (codes "js.hours_ago", codes "{n} 小时前")
    ∷ (codes "js.yesterday", codes "昨天")
    ∷ (codes "js.exceeds_max", codes "超过最大")
    ∷ (codes "js.skipped", codes "已跳过")
    ∷ (codes "rate.too_many", codes "尝试次数过多，请在 {minutes} 分钟后重试。")
    ∷ []
